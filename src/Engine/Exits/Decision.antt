-- ===== src/Engine/Exits/Decision.antt =====
-- Which positions are forced out, and for which reason.
use auto_trade_stock_demo.Prelude.{
  ℕ, ◌<◌, String, true, ◌&&◌, Option, none, some, List, [], ◌∷◌, ◌≡◌, ◌↔◌, ◌⊎◌, inl, inr, refl, ap,
  ◌∙◌, map, arith, Dict, lookup, keys, sorted_set, contains, contains-sorted_set, contains-keys,
  is_some, eq_iff, Option-cases,
}
use auto_trade_stock_demo.Numeric.{Numeric, neg, ◌<=◌, ◌>◌, dec}
use auto_trade_stock_demo.Engine.Paper.{PaperPosition}
use auto_trade_stock_demo.Engine.Exits.{
  ExitConfig, ForcedExit, loss_of, stop_loss, time_stop, exit_position, exit_symbol, exits_of,
  evaluate_exits, first_of_two,
}

either_map : {A B P Q : Type 0} → (A → P) → (B → Q) → A ⊎ B → P ⊎ Q
either_map f g (inl a) = inl (f a)
either_map f g (inr b) = inr (g b)

either_some {ℓ} :
    {A : Type ℓ} (x y : Option A)
    → (is_some (first_of_two x y) ≡ true) ↔ ((is_some x ≡ true) ⊎ (is_some y ≡ true))
either_some none y = ground arith
either_some (some a) y = ground arith

module _ {D : Type 0} ⦃n : Numeric D⦄ where
  -- The stop loss is reached: there is a mark, and the loss against the cost is at the limit.
  abbrev pub StopLoss : ExitConfig D → PaperPosition D → Option D → Type 0
  StopLoss cfg pos none = ⊥
  StopLoss cfg pos (some m) = (loss_of pos m <= neg cfg.stop_loss_rate) ≡ true

  -- The time stop is reached: the days held are known, and more than the limit.
  abbrev pub TimeStop : ExitConfig D → Option ℕ → Type 0
  TimeStop cfg none = ⊥
  TimeStop cfg (some held) = cfg.time_stop_days < held

  -- The book holds the symbol, at a quantity and a cost above zero, and one of the two stops is
  -- reached.
  pub record MustExit (positions : Dict (PaperPosition D)) (marks : Dict D) (days_held : Dict ℕ)
      (cfg : ExitConfig D) (a : String) : Type 0 where
    pub position : PaperPosition D
    pub held : lookup a positions ≡ some position
    pub has_quantity : (position.quantity > dec 0) ≡ true
    pub has_cost : (position.avg_cost > dec 0) ≡ true
    pub reached : StopLoss cfg position (lookup a marks) ⊎ TimeStop cfg (lookup a days_held)

  stop_loss_some :
      (cfg : ExitConfig D) (a : String) (pos : PaperPosition D) (m : Option D)
      → (is_some (stop_loss cfg a pos m) ≡ true) ↔ StopLoss cfg pos m
  unfolding stop_loss
  stop_loss_some cfg a pos none = ground arith
  stop_loss_some cfg a pos (some m) = ground arith

  time_stop_some :
      (cfg : ExitConfig D) (a : String) (h : Option ℕ)
      → (is_some (time_stop cfg a h) ≡ true) ↔ TimeStop cfg h
  unfolding time_stop
  time_stop_some cfg a none = ground arith
  time_stop_some cfg a (some h) = ground arith

  counted_some :
      (cfg : ExitConfig D) (a : String) (pos : PaperPosition D) (m : Option D) (h : Option ℕ)
      → (is_some (exit_position cfg a pos m h) ≡ true) ↔ (
          ((pos.quantity > dec 0) ≡ true)
          × ((pos.avg_cost > dec 0) ≡ true)
          × ((is_some (stop_loss cfg a pos m) ≡ true) ⊎ (is_some (time_stop cfg a h) ≡ true)))
  unfolding exit_position
  counted_some cfg a pos m h =
      ground (arith, either_some (stop_loss cfg a pos m) (time_stop cfg a h))

  counted_exit :
      (cfg : ExitConfig D) (a : String) (pos : PaperPosition D) (m : Option D) (h : Option ℕ)
      → (is_some (exit_position cfg a pos m h) ≡ true) ↔ (
          ((pos.quantity > dec 0) ≡ true)
          × ((pos.avg_cost > dec 0) ≡ true)
          × (StopLoss cfg pos m ⊎ TimeStop cfg h))
  counted_exit cfg a pos m h =
      let s = stop_loss_some cfg a pos m in
      let t = time_stop_some cfg a h in
      let c = counted_some cfg a pos m h in
      (
        (λ e. let (q, k, r) = c.0 e in (q, k, either_map s.0 t.0 r)),
        (λ (q, k, r). c.1 (q, k, either_map s.1 t.1 r)),
      )

  exit_symbol_iff :
      (positions : Dict (PaperPosition D)) (marks : Dict D) (days_held : Dict ℕ)
      (cfg : ExitConfig D) (a : String)
      → (is_some (exit_symbol positions marks days_held cfg a) ≡ true)
        ↔ MustExit positions marks days_held cfg a
  unfolding exit_symbol
  exit_symbol_iff positions marks days_held cfg a = elim (Option-cases (lookup a positions)) [
    | inl e ↦ (λ h. absurd (no_exit e h), λ m. absurd (none_some e m.held))
    | inr (pos, e) ↦
        let c = counted_exit cfg a pos (lookup a marks) (lookup a days_held) in
        (
          (λ h.
              let (q, k, r) = c.0 (exit_here pos e h) in
              record { position = pos; held = e; has_quantity = q; has_cost = k; reached = r }),
          (λ m. must_here pos m e),
        )
  ]
    where
      no_exit :
          lookup a positions ≡ none
          → is_some (exit_symbol positions marks days_held cfg a) ≡ true
          → ⊥
      no_exit e h = ground arith

      exit_here :
          (pos : PaperPosition D)
          → lookup a positions ≡ some pos
          → is_some (exit_symbol positions marks days_held cfg a) ≡ true
          → is_some (exit_position cfg a pos (lookup a marks) (lookup a days_held)) ≡ true
      exit_here pos e h = ground arith

      must_here :
          (pos : PaperPosition D)
          → MustExit positions marks days_held cfg a
          → lookup a positions ≡ some pos
          → is_some (exit_symbol positions marks days_held cfg a) ≡ true
      must_here pos m e =
          let c = counted_exit cfg a m.position (lookup a marks) (lookup a days_held) in
          let h = c.1 (m.has_quantity, m.has_cost, m.reached) in rw m.held h

      none_some : {q : PaperPosition D} {o : Option (PaperPosition D)} → o ≡ none → o ≡ some q → ⊥
      none_some p q = ground arith

  symbol_kept :
      (cfg : ExitConfig D) (a : String) (pos : PaperPosition D) (m : Option D) (h : Option ℕ)
      {f : ForcedExit D}
      → exit_position cfg a pos m h ≡ some f
      → f.symbol ≡ a
  unfolding exit_position stop_loss time_stop
  symbol_kept cfg a pos m h e = ground arith

  exit_symbol-symbol :
      (positions : Dict (PaperPosition D)) (marks : Dict D) (days_held : Dict ℕ)
      (cfg : ExitConfig D) (a : String) {f : ForcedExit D}
      → exit_symbol positions marks days_held cfg a ≡ some f
      → f.symbol ≡ a
  unfolding exit_symbol
  exit_symbol-symbol positions marks days_held cfg a {f} e =
      elim (Option-cases (lookup a positions)) [
        | inl d ↦ absurd (nothing d e)
        | inr (pos, d) ↦ symbol_kept cfg a pos (lookup a marks) (lookup a days_held) (rw d at e)
      ]
    where
      nothing : lookup a positions ≡ none → exit_symbol positions marks days_held cfg a ≡ some f → ⊥
      nothing d e = ground arith

  listed :
      (positions : Dict (PaperPosition D)) (marks : Dict D) (days_held : Dict ℕ)
      (cfg : ExitConfig D) (ss : List String) (a : String)
      → contains (map (λ f. f.symbol) (exits_of positions marks days_held cfg ss)) a
        ≡ (contains ss a && is_some (exit_symbol positions marks days_held cfg a))
  unfolding exits_of contains
  listed positions marks days_held cfg [] a = refl
  listed positions marks days_held cfg (s ∷ ss) a =
      let ih = listed positions marks days_held cfg ss a in
      elim (Option-cases (exit_symbol positions marks days_held cfg s)) [
        | inl e ↦ ground (arith, eq_iff s a)
        | inr (f, e) ↦
            let k = exit_symbol-symbol positions marks days_held cfg s e in
            ground (arith, eq_iff s a)
      ]

  must_hold :
      (positions : Dict (PaperPosition D)) (marks : Dict D) (days_held : Dict ℕ)
      (cfg : ExitConfig D) (a : String)
      → is_some (exit_symbol positions marks days_held cfg a) ≡ true
      → contains (sorted_set (keys positions)) a ≡ true
  must_hold positions marks days_held cfg a h =
      let m = (exit_symbol_iff positions marks days_held cfg a).0 h in
      contains-sorted_set (keys positions) a ∙ contains-keys positions a ∙ ap is_some m.held

  exits_iff :
      (positions : Dict (PaperPosition D)) (marks : Dict D) (days_held : Dict ℕ)
      (cfg : ExitConfig D) (a : String)
      → (is_some (exit_symbol positions marks days_held cfg a) ≡ true
          → contains (sorted_set (keys positions)) a ≡ true)
      → (contains (map (λ f. f.symbol) (evaluate_exits positions marks days_held cfg)) a ≡ true)
        ↔ ((cfg.enabled ≡ true) × (is_some (exit_symbol positions marks days_held cfg a) ≡ true))
  unfolding evaluate_exits contains
  exits_iff positions marks days_held cfg a h =
      let l = listed positions marks days_held cfg (sorted_set (keys positions)) a in ground arith

  -- A symbol is among the forced exits exactly if exits are enabled, the book holds it with a
  -- positive quantity and cost, and its mark has reached the stop loss or it was held longer
  -- than the time stop.
  pub evaluate_exits_iff :
      (positions : Dict (PaperPosition D)) (marks : Dict D) (days_held : Dict ℕ)
      (cfg : ExitConfig D) (a : String)
      → (contains (map (λ f. f.symbol) (evaluate_exits positions marks days_held cfg)) a ≡ true)
        ↔ ((cfg.enabled ≡ true) × MustExit positions marks days_held cfg a)
  evaluate_exits_iff positions marks days_held cfg a =
      let c = exit_symbol_iff positions marks days_held cfg a in
      let b =
        exits_iff positions marks days_held cfg a (must_hold positions marks days_held cfg a) in
      ((λ h. let (e, x) = b.0 h in (e, c.0 x)), (λ (e, m). b.1 (e, c.1 m)))
