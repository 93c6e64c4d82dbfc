-- ===== src/Engine/Pipeline/Invariants.antt =====
-- The induction on the loop of step 9: what every booking keeps, the loop keeps.
use auto_trade_stock_demo.Prelude.{
  String, Option, List, [], ◌∷◌, ◌++◌, ◌≡◌, refl, lookup, length, none, some, Bool-cases,
  Option-cases, inl, inr,
}
use auto_trade_stock_demo.Numeric.{Numeric}
use auto_trade_stock_demo.Orders.Models.{OrderRequest}
use auto_trade_stock_demo.Orders.Guardrails.{GuardrailContext}
use auto_trade_stock_demo.Orders.Service.{submit}
use auto_trade_stock_demo.Engine.Costs.{Floats}
use auto_trade_stock_demo.Engine.Judge.{Decision, CandidateContext}
use auto_trade_stock_demo.Engine.Allocator.{allocate}
use auto_trade_stock_demo.Engine.Pipeline.Sizing.{
  SizingState, SizingInputs, order_context, book, blocked_by, submit_sized, size_one, size_all,
}

module _ {D : Type 0} ⦃n : Numeric D⦄ where
  -- A blocked decision keeps the property.
  abbrev pub KeptByGate : (SizingState D → Type 0) → Type 0
  KeptByGate P =
      (st : SizingState D) (gated : List String) → P st → P (record st { cost_gated = gated })

  -- A submission under the sum of the loop keeps it.
  abbrev pub KeptByBook : (SizingState D → Type 0) → Type 0
  KeptByBook P =
      (st : SizingState D) (req : OrderRequest D) (ctx : GuardrailContext D)
      → ctx.daily_buy_used_krw ≡ st.daily_used
      → P st
      → P (book st req (submit st.service req ctx))

module _ {F D : Type 0} ⦃m : Numeric F⦄ ⦃n : Numeric D⦄ (x : Floats F D)
    (P : SizingState D → Type 0) (kept_gate : KeptByGate P) (kept_book : KeptByBook P) where
  submit_sized_keeps :
      (inp : SizingInputs F D) (st : SizingState D) (ctx : CandidateContext F D)
      (req : Option (OrderRequest D))
      → P st
      → P (submit_sized x inp st ctx req)
  unfolding order_context
  submit_sized_keeps inp st ctx none p = p
  submit_sized_keeps inp st ctx (some req) p = kept_book st req (order_context x inp st ctx) refl p

  size_one_keeps :
      (inp : SizingInputs F D) (st : SizingState D) (d : Decision F D) (ctx : CandidateContext F D)
      → P st
      → P (size_one x inp st d ctx)
  unfolding size_one
  size_one_keeps inp st d ctx p = elim (Bool-cases (blocked_by x inp.entry_gate d ctx)) [
    | inl e ↦ rw e (kept_gate st (st.cost_gated ++ d.symbol ∷ []) p)
    | inr e ↦ rw e (
        submit_sized_keeps inp st ctx
          (allocate x d ctx st.service.config none (inp.new_id (length st.orders)) inp.multiplier)
          p)
  ]

  pub size_all_keeps :
      (inp : SizingInputs F D) (st : SizingState D) (ds : List (Decision F D))
      → P st
      → P (size_all x inp st ds).0
  unfolding size_all
  size_all_keeps inp st [] p = p
  size_all_keeps inp st (d ∷ ds) p = elim (Option-cases (lookup d.symbol inp.contexts)) [
    | inl e ↦ rw e p
    | inr (ctx, e) ↦
        rw e (size_all_keeps inp (size_one x inp st d ctx) ds (size_one_keeps inp st d ctx p))
  ]
