-- ===== src/Types.antt =====
-- src/types.rs: identifiers, orders, operations, policies and errors.
pub mod Ids
pub mod Wallets
mod Tests
use l4_book.Prelude.{ℕ, List, Option, Bool, ◌==◌, ℕ_discrete}

abbrev pub OrderId : Type 0
OrderId = ℕ

abbrev pub Price : Type 0
Price = ℕ

abbrev pub Qty : Type 0
Qty = ℕ

abbrev pub Ts : Type 0
Ts = ℕ

-- The twenty bytes of the address, first byte first.
abbrev pub WalletId : Type 0
WalletId = List ℕ

pub data Side : Type 0 where
  bid ask : Side

pub record Order : Type 0 where
  pub id : OrderId
  pub wallet : WalletId
  pub side : Side
  pub price : Price
  pub qty : Qty
  pub ts : Ts

pub data BookOp : Type 0 where
  add : Order → BookOp
  remove : OrderId → BookOp
  update_size : OrderId → Qty → BookOp
  amend_size : OrderId → Qty → BookOp

pub data OperationSource : Type 0 where
  venue simulator user unknown : OperationSource

pub data VenueDiffKind : Type 0 where
  new remove update modified complete_fill_collapsed : VenueDiffKind

pub data SimulatorCause : Type 0 where
  taker_fill limit_order_rest snapshot_preserve : SimulatorCause

-- Texts are lists of bytes.
pub data OperationCause : Type 0 where
  venue : List ℕ → VenueDiffKind → Option (List ℕ) → OperationCause
  simulator : SimulatorCause → OperationCause
  snapshot user unknown : OperationCause

pub record ReasonedBookOp : Type 0 where
  pub op : BookOp
  pub cause : OperationCause

pub record QueuePosition : Type 0 where
  pub id : Option OrderId
  pub side : Side
  pub price : Price
  pub orders_ahead : ℕ
  pub qty_ahead : Qty
  pub orders_behind : ℕ
  pub qty_behind : Qty
  pub level_order_count : ℕ
  pub level_total_qty : Qty

pub data AmendPriorityPolicy : Type 0 where
  preserve lose_priority_on_increase : AmendPriorityPolicy

pub record FillDelta : Type 0 where
  pub maker_order_id : OrderId
  pub maker_wallet : WalletId
  pub maker_side : Side
  pub price : Price
  pub filled_qty : Qty
  pub maker_qty_before : Qty
  pub maker_qty_after : Qty
  pub maker_removed : Bool

-- A value of type `f64`, as the expression that the source evaluates: conversions from integers,
-- quotients, differences and products. Rounding is not modelled.
pub data F64 : Type 0 where
  of_int : ℕ → F64
  div sub mul : F64 → F64 → F64

pub record TakerMatch : Type 0 where
  pub taker_side : Side
  pub requested_qty : Qty
  pub filled_qty : Qty
  pub unfilled_qty : Qty
  pub filled_notional : ℕ
  pub limit_price : Price
  pub reference_price : Option Price
  pub average_price : Option F64
  pub fills : List FillDelta
  pub limit_stopped : Bool
  pub exhausted_book : Bool

unfoldable pub is_complete : TakerMatch → Bool
is_complete m = m.unfilled_qty == 0

pub data LimitOrderPolicy : Type 0 where
  gtc ioc fok post_only : LimitOrderPolicy

pub data SubmitRejectReason : Type 0 where
  post_only_would_cross fill_or_kill_would_not_fill : SubmitRejectReason

pub record SubmitLimitOrderOutcome : Type 0 where
  pub policy : LimitOrderPolicy
  pub rejected : Option SubmitRejectReason
  pub taker_match : TakerMatch
  pub rested_order : Option Order

pub data SnapshotPolicy : Type 0 where
  replace preserve_synthetic : SnapshotPolicy

pub record SnapshotOutcome : Type 0 where
  pub inserted : ℕ
  pub preserved : ℕ

pub data MissingOrderPolicy : Type 0 where
  error skip : MissingOrderPolicy

pub data DuplicateAddPolicy : Type 0 where
  error skip : DuplicateAddPolicy

pub data NonDecreasingUpdatePolicy : Type 0 where
  error treat_as_amend : NonDecreasingUpdatePolicy

pub record ReplayPolicy : Type 0 where
  pub missing_order : MissingOrderPolicy
  pub duplicate_add : DuplicateAddPolicy
  pub non_decreasing_update : NonDecreasingUpdatePolicy

abbrev pub strict : ReplayPolicy
strict = record {
  missing_order = MissingOrderPolicy.error;
  duplicate_add = DuplicateAddPolicy.error;
  non_decreasing_update = NonDecreasingUpdatePolicy.error;
}

abbrev pub dwellir_tolerant : ReplayPolicy
dwellir_tolerant = record {
  missing_order = MissingOrderPolicy.skip;
  duplicate_add = DuplicateAddPolicy.skip;
  non_decreasing_update = NonDecreasingUpdatePolicy.treat_as_amend;
}

pub data BookError : Type 0 where
  duplicate_order_id : OrderId → BookError
  unknown_order_id : OrderId → BookError
  zero_qty : BookError
  synthetic_order_id_in_snapshot : OrderId → BookError
  non_decreasing_size : Qty → Qty → BookError
  invalid_wallet_hex : BookError

pub data ToleratedReplayReason : Type 0 where
  missing_order : OrderId → ToleratedReplayReason
  duplicate_add : OrderId → ToleratedReplayReason
  non_decreasing_update : OrderId → Qty → Qty → ToleratedReplayReason

pub data ReplayApplyOutcome : Type 0 where
  applied : BookOp → ReplayApplyOutcome
  skipped : BookOp → ToleratedReplayReason → ReplayApplyOutcome
  coerced : BookOp → BookOp → ToleratedReplayReason → ReplayApplyOutcome
  error : BookOp → BookError → ReplayApplyOutcome

unfoldable pub WalletId-discrete : Discrete WalletId
unfolding ℕ_discrete
WalletId-discrete = hlevel ℕ_discrete
