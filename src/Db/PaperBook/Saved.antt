-- ===== src/Db/PaperBook/Saved.antt =====
-- What is loaded of the paper book after it was saved.
use auto_trade_stock_demo.Prelude.{
  ℕ, String, false, Option, none, some, List, [], ◌∷◌, ◌++◌, Dict, insert, keys, contains, ◌≡◌,
  refl, ap, ◌∙◌, sym, arith, ◌||◌, ◌==◌, eq_iff,
}
use auto_trade_stock_demo.Clock.{DateTime, astimezone}
use auto_trade_stock_demo.Engine.Paper.{PaperPosition, PaperPortfolio}
use auto_trade_stock_demo.Db.Rows.{Columns, KeepsValues, Database, PaperStateRow}
use auto_trade_stock_demo.Db.PaperBook.{
  position_rows, positions_of, put_position, paper_position, load_paper, save_paper, load_state,
  saved_state, opened_text, utc_opt,
}

-- No symbol stands twice.
abbrev pub DistinctKeys : {V : Type 0} → Dict V → Type 0
DistinctKeys [] = Unit
DistinctKeys ((s, v) ∷ d) = (contains (keys d) s ≡ false) × DistinctKeys d

abbrev pub in_utc_opt : Option DateTime → Option DateTime
in_utc_opt none = none
in_utc_opt (some t) = some (astimezone t 0)

-- The positions with the dates of their opening in UTC.
abbrev pub in_utc : {D : Type 0} → Dict (PaperPosition D) → Dict (PaperPosition D)
in_utc [] = []
in_utc ((s, pos) ∷ d) = (s, record pos { opened_at = in_utc_opt pos.opened_at }) ∷ in_utc d

insert_new :
    {V : Type 0} (s : String) (v : V) (d : Dict V)
    → contains (keys d) s ≡ false
    → insert s v d ≡ d ++ (s, v) ∷ []
unfolding insert keys contains
insert_new s v [] h = refl
insert_new s v ((j, w) ∷ d) h =
    let other : (j == s) ≡ false = ground arith in
    let rest = insert_new s v d (ground arith) in rw other (ap (λ (q : Dict _). (j, w) ∷ q) rest)

append_assoc : {V : Type 0} (a b d : List V) → a ++ b ++ d ≡ a ++ (b ++ d)
append_assoc [] b d = refl
append_assoc (x ∷ a) b d = ap (λ (q : List _). x ∷ q) (append_assoc a b d)

append_nil : {V : Type 0} (a : List V) → a ++ [] ≡ a
append_nil [] = refl
append_nil (x ∷ a) = ap (λ (q : List _). x ∷ q) (append_nil a)

-- No key of the first is one of the second.
abbrev Apart : {V W : Type 0} → Dict V → Dict W → Type 0
Apart a [] = Unit
Apart a ((s, v) ∷ d) = (contains (keys a) s ≡ false) × Apart a d

keys-append :
    {V : Type 0} (a : Dict V) (s t : String) (v : V)
    → contains (keys (a ++ (s, v) ∷ [])) t ≡ (contains (keys a) t || s == t)
unfolding keys contains
keys-append [] s t v = ground arith
keys-append ((j, w) ∷ a) s t v = ground (arith, keys-append a s t v)

Apart-append :
    {V W : Type 0} (a : Dict V) (s : String) (v : V) (d : Dict W)
    → Apart a d
    → contains (keys d) s ≡ false
    → Apart (a ++ (s, v) ∷ []) d
unfolding keys contains
Apart-append a s v [] p h = tt
Apart-append a s v ((t, w) ∷ d) (q, p) h = (
  keys-append a s t v ∙ ground (arith, eq_iff s t, eq_iff t s),
  Apart-append a s v d p (ground arith),
)

Apart-nil : (V : Type 0) {W : Type 0} (d : Dict W) → Apart {V = V} [] d
unfolding keys contains
Apart-nil V [] = tt
Apart-nil V ((s, v) ∷ d) = (refl, Apart-nil V d)

module _ {D : Type 0} (c : Columns D) (k : KeepsValues c) where
  opened_reads : (o : Option DateTime) → utc_opt (opened_text c o) ≡ in_utc_opt o
  unfolding astimezone
  opened_reads none = refl
  opened_reads (some t) = rw (k.timestamp_utc t.instant) refl

  row_reads :
      (s : String) (pos : PaperPosition D) (d : Dict (PaperPosition D))
      → put_position c s
          (paper_position c
            (c.texts.decimal (c.texts.str pos.quantity))
            (c.texts.decimal (c.texts.str pos.avg_cost))
            (opened_text c pos.opened_at))
          (some d)
        ≡ some (insert s (record pos { opened_at = in_utc_opt pos.opened_at }) d)
  row_reads s pos d =
      rw
        (
          k.reads_back.decimal-str pos.quantity,
          k.reads_back.decimal-str pos.avg_cost,
          opened_reads pos.opened_at,
        )
        refl

  positions_read :
      (ps acc : Dict (PaperPosition D))
      → DistinctKeys ps
      → Apart acc ps
      → positions_of c (position_rows c ps) (some acc) ≡ some (acc ++ in_utc ps)
  unfolding positions_of position_rows
  positions_read [] acc u p = ap (λ (q : Dict _). some q) (sym (append_nil acc))
  positions_read ((s, pos) ∷ ps) acc (fresh, u) (new, p) =
      let pos' : PaperPosition D = record pos { opened_at = in_utc_opt pos.opened_at } in
      let reads =
        row_reads s pos acc
        ∙ ap (λ (q : Dict (PaperPosition D)). some q) (insert_new s pos' acc new) in
      ap (λ q. positions_of c (position_rows c ps) q) reads
      ∙ positions_read ps (acc ++ (s, pos') ∷ []) u (Apart-append acc s pos' ps p fresh)
      ∙ ap (λ (q : Dict (PaperPosition D)). some q) (append_assoc acc ((s, pos') ∷ []) (in_utc ps))

  state_reads :
      (old : Option PaperStateRow) (p : PaperPortfolio D) (seed : Option D) (now : ℕ)
      → DistinctKeys p.positions
      → load_state c (position_rows c p.positions) (some (saved_state c old p seed now))
        ≡ some (some (record p { positions = in_utc p.positions }))
  state_reads none p seed now u =
      rw
        (
          k.reads_back.decimal-str p.cash,
          k.reads_back.decimal-str p.realized_cum,
          positions_read p.positions [] u (Apart-nil _ p.positions),
        )
        refl
  state_reads (some old) p seed now u =
      rw
        (
          k.reads_back.decimal-str p.cash,
          k.reads_back.decimal-str p.realized_cum,
          positions_read p.positions [] u (Apart-nil _ p.positions),
        )
        refl

  -- If the columns keep their values, a paper book that holds no symbol twice is loaded as it
  -- was saved, whatever was saved before, with the dates of its positions in UTC.
  pub load_paper-save_paper :
      {F : Type 0} (db : Database F D) (p : PaperPortfolio D) (seed : Option D) (now : ℕ)
      → DistinctKeys p.positions
      → load_paper c (save_paper c db p seed now)
        ≡ some (some (record p { positions = in_utc p.positions }))
  unfolding load_paper save_paper
  load_paper-save_paper db p seed now u = state_reads db.paper_state p seed now u
