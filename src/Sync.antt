-- ===== src/Sync.antt =====
-- What the code uses of the crates crossbeam-queue, futures-util and conquer-once: operations that
-- are atomic, on values that interrupt handlers share with the rest of the kernel.
pub mod Plain
use taijios.Common.{
  ℕ, ◌+◌, ◌≤◌, ◌<◌, ◌≡◌, ◌⊎◌, Bool, true, false, Option, none, some, List, [], ◌∷◌, ◌++◌, length,
}

-- `ArrayQueue`: a bounded queue; a push onto a full queue and a pop of an empty one fail.
pub record ArrayQueue (A : Type 0) : Type 1 where
  pub Queue : Type 0
  pub new : ℕ → Queue
  pub push : Queue → A → Option Queue
  pub pop : Queue → Option (A × Queue)
  pub is_empty : Queue → Bool
  pub items : Queue → List A
  pub capacity : Queue → ℕ
  pub new_law : (n : ℕ) → (items (new n) ≡ []) × (capacity (new n) ≡ n)
  pub push_law :
      (q : Queue) (a : A)
      → ((q' : Queue) × (push q a ≡ some q')
          × (items q' ≡ items q ++ (a ∷ []))
          × (capacity q' ≡ capacity q)
          × (length (items q) < capacity q))
        ⊎ ((push q a ≡ none) × (capacity q ≤ length (items q)))
  pub pop_law :
      (q : Queue)
      → ((a : A) × (q' : Queue) × (pop q ≡ some (a, q'))
          × (items q ≡ a ∷ items q')
          × (capacity q' ≡ capacity q))
        ⊎ ((pop q ≡ none) × (items q ≡ []))
  pub is_empty_law :
      (q : Queue)
      → ((is_empty q ≡ true) × (items q ≡ [])) ⊎ ((is_empty q ≡ false) × (0 < length (items q)))

-- `AtomicWaker`: the waker that was registered last, until it is taken. `wake` takes it and wakes it.
pub record AtomicWaker (Waker : Type 0) : Type 1 where
  pub Cell : Type 0
  pub new : Cell
  pub register : Cell → Waker → Cell
  pub take : Cell → Option Waker × Cell
  pub stored : Cell → Option Waker
  pub new_law : stored new ≡ none
  pub register_law : (c : Cell) (w : Waker) → stored (register c w) ≡ some w
  pub take_law : (c : Cell) → ((take c).0 ≡ stored c) × (stored (take c).1 ≡ none)

-- `OnceCell`: a value that is set once. What it holds can be changed in place through a shared
-- reference, which `write` stands for.
pub record OnceCell (A : Type 0) : Type 1 where
  pub Cell : Type 0
  pub uninit : Cell
  pub try_get : Cell → Option A
  pub try_init_once : Cell → A → Option Cell
  pub write : Cell → A → Cell
  pub uninit_law : try_get uninit ≡ none
  pub init_law :
      (c : Cell) (a : A)
      → ((try_get c ≡ none) × (c' : Cell) × (try_init_once c a ≡ some c') × (try_get c' ≡ some a))
        ⊎ ((b : A) × (try_get c ≡ some b) × (try_init_once c a ≡ none))
  pub write_law : (c : Cell) (a b : A) → try_get c ≡ some a → try_get (write c b) ≡ some b
