-- ===== src/Task/DummyWaker.antt =====
-- src/task/simple_executor.rs: the waker that the simple executor hands to its tasks.
use taijios.Common.{ℕ, ◌≡◌, refl, Option, none, some, List, [], ◌∷◌}

-- The functions inside `dummy_raw_waker`.
pub data Function : Type 0 where
  no_op clone : Function

-- `RawWakerVTable` and `RawWaker` of the language's library, with functions by name.
pub record RawWakerVTable : Type 0 where
  pub clone_fn : Function
  pub wake_fn : Function
  pub wake_by_ref_fn : Function
  pub drop_fn : Function

pub record RawWaker : Type 0 where
  pub data_pointer : ℕ
  pub vtable : RawWakerVTable

unfoldable pub dummy_raw_waker : RawWaker
dummy_raw_waker = record {
  data_pointer = 0;
  vtable = record { clone_fn = clone; wake_fn = no_op; wake_by_ref_fn = no_op; drop_fn = no_op };
}

-- A call of a function that yields a waker; none where it yields none.
unfoldable pub call_clone : Function → ℕ → Option RawWaker
call_clone no_op pointer = none
call_clone clone pointer = some dummy_raw_waker

-- A call of a function that yields nothing, on the machine.
unfoldable pub call : {World : Type 0} → Function → ℕ → World → Option World
call no_op pointer world = some world
call clone pointer world = none

-- `Waker::from_raw`, and what the library's waker calls.
unfoldable pub dummy_waker : RawWaker
dummy_waker = dummy_raw_waker

pub data Use : Type 0 where
  clones wakes wakes_by_ref drops : Use

unfoldable pub apply : {World : Type 0} → RawWaker → Use → World → Option (RawWaker × World)
apply self clones world = elim (call_clone self.vtable.clone_fn self.data_pointer) [
  | none ↦ none
  | some other ↦ some (other, world)
]
apply self wakes world = elim (call self.vtable.wake_fn self.data_pointer world) [
  | none ↦ none
  | some world' ↦ some (self, world')
]
apply self wakes_by_ref world = elim (call self.vtable.wake_by_ref_fn self.data_pointer world) [
  | none ↦ none
  | some world' ↦ some (self, world')
]
apply self drops world = elim (call self.vtable.drop_fn self.data_pointer world) [
  | none ↦ none
  | some world' ↦ some (self, world')
]

unfoldable pub apply_all :
    {World : Type 0} → RawWaker → List Use → World → Option (RawWaker × World)
apply_all self [] world = some (self, world)
apply_all self (use_ ∷ uses) world = elim (apply self use_ world) [
  | none ↦ none
  | some (other, world') ↦ apply_all other uses world'
]

-- Whatever a task does with its waker and the clones of it, nothing changes and nothing is woken.
pub dummy_waker-inert :
    {World : Type 0} (uses : List Use) (world : World)
    → apply_all dummy_waker uses world ≡ some (dummy_waker, world)
unfolding apply_all apply call call_clone dummy_waker dummy_raw_waker
dummy_waker-inert [] world = refl
dummy_waker-inert (clones ∷ uses) world = dummy_waker-inert uses world
dummy_waker-inert (wakes ∷ uses) world = dummy_waker-inert uses world
dummy_waker-inert (wakes_by_ref ∷ uses) world = dummy_waker-inert uses world
dummy_waker-inert (drops ∷ uses) world = dummy_waker-inert uses world
