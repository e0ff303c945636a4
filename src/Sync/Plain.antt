-- ===== src/Sync/Plain.antt =====
-- Plain data that keeps the laws of the shared values.
use taijios.Common.{
  ℕ, ◌≤◌, ◌<◌, ◌≡◌, ◌⊎◌, inl, inr, refl, arith, Bool, true, false, Option, none, some, List, [],
  ◌∷◌, ◌++◌, length, ltb, if◌then◌else◌, Bool-cases, ltb→lt,
}
use taijios.Sync.{ArrayQueue, AtomicWaker, OnceCell}

module _ (A : Type 0) where
  pub record Bounded : Type 0 where
    pub items : List A
    pub capacity : ℕ

  abbrev pub push : Bounded → A → Option Bounded
  push q a =
      if ltb (length q.items) q.capacity
      then some (record q { items = q.items ++ (a ∷ []) })
      else none

  abbrev pub pop_items : ℕ → List A → Option (A × Bounded)
  pop_items n [] = none
  pop_items n (a ∷ rest) = some (a, record { items = rest; capacity = n })

  abbrev pub is_nil : List A → Bool
  is_nil [] = true
  is_nil (a ∷ rest) = false

  pub push-cases :
      (q : Bounded) (a : A)
      → ((q' : Bounded) × (push q a ≡ some q')
          × (q'.items ≡ q.items ++ (a ∷ []))
          × (q'.capacity ≡ q.capacity)
          × (length q.items < q.capacity))
        ⊎ ((push q a ≡ none) × (q.capacity ≤ length q.items))
  push-cases q a = elim (Bool-cases (ltb (length q.items) q.capacity)) [
    | inl e ↦ inl (record q { items = q.items ++ (a ∷ []) }, rw e refl, refl, refl, ltb→lt _ _ e)
    | inr e ↦ inr (rw e refl, ground arith)
  ]

  pub pop-cases :
      (n : ℕ) (items : List A)
      → ((a : A) × (q' : Bounded) × (pop_items n items ≡ some (a, q'))
          × (items ≡ a ∷ q'.items)
          × (q'.capacity ≡ n))
        ⊎ ((pop_items n items ≡ none) × (items ≡ []))
  pop-cases n [] = inr (refl, refl)
  pop-cases n (a ∷ rest) = inl (a, record { items = rest; capacity = n }, refl, refl, refl)

  pub is_nil-cases :
      (items : List A)
      → ((is_nil items ≡ true) × (items ≡ [])) ⊎ ((is_nil items ≡ false) × (0 < length items))
  is_nil-cases [] = inl (refl, refl)
  is_nil-cases (a ∷ rest) = inr (refl, omega arith)

  abbrev pub plain_queue : ArrayQueue A
  plain_queue = record {
    Queue = Bounded;
    new = λ n. record { items = []; capacity = n };
    push = push;
    pop = λ q. pop_items q.capacity q.items;
    is_empty = λ q. is_nil q.items;
    items = λ q. q.items;
    capacity = λ q. q.capacity;
    new_law = λ n. (refl, refl);
    push_law = push-cases;
    pop_law = λ q. pop-cases q.capacity q.items;
    is_empty_law = λ q. is_nil-cases q.items;
  }

  abbrev pub plain_waker : AtomicWaker A
  plain_waker = record {
    Cell = Option A;
    new = none;
    register = λ c w. some w;
    take = λ c. (c, none);
    stored = λ c. c;
    new_law = refl;
    register_law = λ c w. refl;
    take_law = λ c. (refl, refl);
  }

  abbrev pub init_once : Option A → A → Option (Option A)
  init_once none a = some (some a)
  init_once (some b) a = none

  pub init_once-cases :
      (c : Option A) (a : A)
      → ((c ≡ none) × (c' : Option A) × (init_once c a ≡ some c') × (c' ≡ some a))
        ⊎ ((b : A) × (c ≡ some b) × (init_once c a ≡ none))
  init_once-cases none a = inl (refl, some a, refl, refl)
  init_once-cases (some b) a = inr (b, refl, refl)

  abbrev pub plain_cell : OnceCell A
  plain_cell = record {
    Cell = Option A;
    uninit = none;
    try_get = λ c. c;
    try_init_once = init_once;
    write = λ c b. some b;
    uninit_law = refl;
    init_law = init_once-cases;
    write_law = λ c a b e. refl;
  }
