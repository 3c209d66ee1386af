-- ===== src/Benchmarks/Churn.antt =====
-- src/benchmark_book.cpp, scenario 3: random orders, cancels and marketable orders. A draw holds the
-- numbers that the generator gives in one round, in the order of the calls; live_ids is a vector.
pub mod Tracked
use lobook.Base.{
  ℕ, suc, ◌+◌, ◌-◌, ◌%◌, ◌≤◌, ◌<◌, ◌≡◌, refl, inl, inr, Bool, true, false, not, ◌&&◌, List, [], ◌∷◌,
  Run, ok, ◌>>=◌, ltb, ◌==◌, if◌then◌else◌, update, Bool-cases, arith,
}
use lobook.PriceBitset.{max_prices}
use lobook.Chain.Lists.{has, erase, length, has-erase_ne}
use lobook.BitsetBook.Session.{Incoming}
use lobook.Benchmarks.{BookOps, max_orders}

pub record Draw : Type 0 where
  pub price : ℕ
  pub side : ℕ
  pub action : ℕ
  pub choice : ℕ

pub record Ids : Type 0 where
  pub at : ℕ → ℕ
  pub size : ℕ

unfoldable pub push_back : Ids → ℕ → Ids
push_back ids id = record { at = update ids.at ids.size id; size = suc ids.size }

-- `live_ids[idx] = live_ids.back()` and `pop_back`
unfoldable pub swap_out : Ids → ℕ → Ids
swap_out ids idx = record { at = update ids.at idx (ids.at (ids.size - 1)); size = ids.size - 1 }

pub record Churn : Type 0 where
  pub next_id : ℕ
  pub live_ids : Ids

abbrev pub start : Churn
start = record { next_id = 0; live_ids = record { at = λ i. 0; size = 0 } }

pub data Request : Type 0 where
  submit : Incoming → Request
  cancel : ℕ → Request

-- One round of the loop: what it asks of the book, and the ids behind it.
unfoldable pub churn_round : Churn → Draw → Request × Churn
churn_round c d =
    let is_buy = d.side % 2 == 1 in
    let action = d.action % 10 in
    let ids = c.live_ids in
    if ltb action 7
    then (
      submit record { id = c.next_id; price = d.price; qty = 1 + d.choice % 10; is_buy = is_buy },
      record { next_id = suc c.next_id; live_ids = push_back ids c.next_id },
    )
    else if ltb action 9 && not (ids.size == 0)
    then (
      cancel (ids.at (d.choice % ids.size)),
      record c { live_ids = swap_out ids (d.choice % ids.size) },
    )
    else (
      submit record {
        id = c.next_id;
        price = if is_buy then max_prices - 1 else 0;
        qty = 1;
        is_buy = is_buy;
      },
      record c { next_id = suc c.next_id },
    )

unfoldable pub churn_requests : Churn → List Draw → List Request
churn_requests c [] = []
churn_requests c (d ∷ ds) = let (request, c') = churn_round c d in request ∷ churn_requests c' ds

module _ {B : Type 0} (ops : BookOps B) where
  open ops use {init, submit_order, cancel_order}

  unfoldable pub request_of : B → Request → Run B
  request_of b (submit o) = submit_order b o.id o.price o.qty o.is_buy
  request_of b (cancel id) = cancel_order b id

  unfoldable pub request_each : B → List Request → Run B
  request_each b [] = ok b
  request_each b (r ∷ rs) = do b' ← request_of b r; request_each b' rs

  unfoldable pub scenario_churn : List Draw → Run B
  scenario_churn draws = do b ← init max_orders; request_each b (churn_requests start draws)
