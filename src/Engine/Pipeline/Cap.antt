-- ===== src/Engine/Pipeline/Cap.antt =====
-- The daily limit on buys, over all the orders of a tick.
use auto_trade_stock_demo.Prelude.{
  true, List, [], ◌∷◌, ◌≡◌, refl, arith, lookup, Bool-cases, Option-cases, inl, inr, ◌++◌, ◌&&◌,
  if◌then◌else◌,
}
use auto_trade_stock_demo.Numeric.{Numeric, ◌+◌, ◌<=◌, or_zero}
use auto_trade_stock_demo.Orders.Models.{OrderRequest, OrderResult, estimated_notional}
use auto_trade_stock_demo.Orders.Guardrails.{GuardrailContext, is_buy}
use auto_trade_stock_demo.Orders.Service.{OrderService, submit, effective}
use auto_trade_stock_demo.Orders.Service.Submit.{
  Accepted, submit-Accepted-Admitted, submit_keeps, submit-Settles, submit_duplicate,
}
use auto_trade_stock_demo.Engine.Costs.{Floats}
use auto_trade_stock_demo.Engine.Judge.{Decision}
use auto_trade_stock_demo.Engine.Pipeline.Invariants.{size_all_keeps}
use auto_trade_stock_demo.Engine.Pipeline.Sizing.{
  SizingState, SizingInputs, is_accepted, book, size_all,
}

module _ {D : Type 0} ⦃n : Numeric D⦄ where
  -- What counts for the day is within the limit.
  abbrev pub WithinCap : SizingState D → Type 0
  WithinCap st = (st.daily_used <= st.service.config.daily_buy_cap_krw) ≡ true

  -- The sum after one more result: the cost of a buy that was executed is added.
  abbrev pub add_bought : D → OrderResult D → D
  add_bought used r =
      if is_buy r.request && is_accepted r.status
      then used + or_zero (estimated_notional r.request)
      else used

  -- What the executed buys among the results cost, on top of `used`.
  abbrev pub total_bought : D → List (OrderResult D) → D
  total_bought used [] = used
  total_bought used (r ∷ rs) = total_bought (add_bought used r) rs

  -- The sum of the loop is the cost of its orders, and is within the limit of the day.
  abbrev pub Accounts : D → SizingState D → Type 0
  Accounts used st =
      (total_bought used st.orders ≡ st.daily_used)
      × ((st.daily_used <= st.service.config.daily_buy_cap_krw) ≡ true)

  total_bought-append :
      (rs : List (OrderResult D)) (r : OrderResult D) (used : D)
      → total_bought used (rs ++ r ∷ []) ≡ add_bought (total_bought used rs) r
  total_bought-append [] r used = refl
  total_bought-append (q ∷ rs) r used = total_bought-append rs r (add_bought used q)

  settled_result :
      (s : OrderService D) (o : OrderRequest D) (ctx : GuardrailContext D)
      → is_accepted (submit s o ctx).1.status ≡ true
      → Accepted (submit s o ctx).1 × ((submit s o ctx).1.request ≡ o)
  unfolding is_accepted
  settled_result s o ctx h = elim (Option-cases (lookup o.client_order_id s.seen)) [
    | inl e ↦ let settled = submit-Settles s o ctx e in ground arith
    | inr (prior, e) ↦ let known = submit_duplicate s o ctx e in ground arith
  ]

  submit_within_day :
      (s : OrderService D) (o : OrderRequest D) (ctx : GuardrailContext D)
      → is_buy o ≡ true
      → is_accepted (submit s o ctx).1.status ≡ true
      → (ctx.daily_buy_used_krw + or_zero (estimated_notional o) <= s.config.daily_buy_cap_krw)
        ≡ true
  unfolding effective is_buy
  submit_within_day s o ctx b h =
      let a = submit-Accepted-Admitted s o ctx (settled_result s o ctx h).0 in
      let bought = a.buy_ok (ground arith) in rw (bought.known) (bought.within_day)

  book_sum :
      (st : SizingState D) (req : OrderRequest D) (s : OrderService D) (r : OrderResult D)
      (used : D)
      → total_bought used st.orders ≡ st.daily_used
      → (is_accepted r.status ≡ true → r.request ≡ req)
      → total_bought used (book st req (s, r)).orders ≡ (book st req (s, r)).daily_used
  unfolding book
  book_sum st req s r used a h = rw (total_bought-append st.orders r used) (
      rw a
        (elim (Bool-cases (is_accepted r.status)) [ inl e ↦ rw (h e) refl | inr e ↦ ground arith ]))

  book_limit :
      (st : SizingState D) (req : OrderRequest D) (s : OrderService D) (r : OrderResult D)
      → s.config ≡ st.service.config
      → (st.daily_used <= st.service.config.daily_buy_cap_krw) ≡ true
      → (is_buy req ≡ true
          → is_accepted r.status ≡ true
          → (st.daily_used + or_zero (estimated_notional req)
              <= st.service.config.daily_buy_cap_krw)
            ≡ true)
      → ((book st req (s, r)).daily_used <= (book st req (s, r)).service.config.daily_buy_cap_krw)
        ≡ true
  unfolding book
  book_limit st req s r e w h = ground arith

  pub book-Accounts :
      (used : D) (st : SizingState D) (req : OrderRequest D) (ctx : GuardrailContext D)
      → ctx.daily_buy_used_krw ≡ st.daily_used
      → Accounts used st
      → Accounts used (book st req (submit st.service req ctx))
  book-Accounts used st req ctx e (a, w) = (
    book_sum st req (submit st.service req ctx).0 (submit st.service req ctx).1 used a
        (λ h. (settled_result st.service req ctx h).1),
    book_limit st req (submit st.service req ctx).0 (submit st.service req ctx).1
        (submit_keeps st.service req ctx).2 w
        (λ b h. rw⁻¹ e (submit_within_day st.service req ctx b h)),
  )

-- The buys that a tick executes, on top of what was used of the day before, stay within the
-- limit of the day, and the sum of the loop is their cost.
pub size_all-Accounts :
    {F D : Type 0} ⦃m : Numeric F⦄ ⦃n : Numeric D⦄ (x : Floats F D) (inp : SizingInputs F D)
    (st : SizingState D) (ds : List (Decision F D)) (used : D)
    → Accounts used st
    → Accounts used (size_all x inp st ds).0
size_all-Accounts x inp st ds used a =
    size_all_keeps x (Accounts used) (λ st gated a. a) (book-Accounts used) inp st ds a
