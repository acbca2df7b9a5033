-- ===== src/IoScheduler/TaskTree/Order.antt =====
-- Lists of tasks with rising keys.
use lbz.Prelude.{
  ℕ, ◌+◌, ◌<◌, ◌≡◌, refl, List, [], ◌∷◌, ◌++◌, Option, none, some, ◌==◌, if◌then◌else◌, arith,
}

module _ (key : ℕ → ℕ) where
  abbrev pub AllBelow : ℕ → List ℕ → Type 0
  AllBelow k [] = Unit {0}
  AllBelow k (x ∷ xs) = (key x < k) × AllBelow k xs

  abbrev pub AllAbove : ℕ → List ℕ → Type 0
  AllAbove k [] = Unit {0}
  AllAbove k (x ∷ xs) = (k < key x) × AllAbove k xs

  abbrev pub Rising : List ℕ → Type 0
  Rising [] = Unit {0}
  Rising (x ∷ xs) = AllAbove (key x) xs × Rising xs

  -- The first task with the key.
  abbrev pub find_task : ℕ → List ℕ → Option ℕ
  find_task k [] = none
  find_task k (x ∷ xs) = if key x == k then some x else find_task k xs

  pub AllBelow-mono : (a b : ℕ) (xs : List ℕ) → a < b → AllBelow a xs → AllBelow b xs
  AllBelow-mono a b [] h v = tt
  AllBelow-mono a b (x ∷ xs) h v = (omega arith, AllBelow-mono a b xs h v.1)

  pub AllAbove-mono : (a b : ℕ) (xs : List ℕ) → a < b → AllAbove b xs → AllAbove a xs
  AllAbove-mono a b [] h v = tt
  AllAbove-mono a b (x ∷ xs) h v = (omega arith, AllAbove-mono a b xs h v.1)

  AllAbove-split : (k : ℕ) (xs ys : List ℕ) → AllAbove k (xs ++ ys) → AllAbove k xs × AllAbove k ys
  AllAbove-split k [] ys v = (tt, v)
  AllAbove-split k (x ∷ xs) ys v = let (a, b) = AllAbove-split k xs ys v.1 in ((v.0, a), b)

  AllAbove-join : (k : ℕ) (xs ys : List ℕ) → AllAbove k xs → AllAbove k ys → AllAbove k (xs ++ ys)
  AllAbove-join k [] ys v w = w
  AllAbove-join k (x ∷ xs) ys v w = (v.0, AllAbove-join k xs ys v.1 w)

  -- What lies on either side of a task in a rising list.
  pub record Parted (xs : List ℕ) (x : ℕ) (ys : List ℕ) : Type 0 where
    pub left : Rising xs
    pub right : Rising ys
    pub below : AllBelow (key x) xs
    pub above : AllAbove (key x) ys

  pub Rising-Parted : (xs : List ℕ) (x : ℕ) (ys : List ℕ) → Rising (xs ++ (x ∷ ys)) → Parted xs x ys
  Rising-Parted [] x ys v = record { left = tt; right = v.1; below = tt; above = v.0 }
  Rising-Parted (z ∷ xs) x ys v =
      let p = Rising-Parted xs x ys v.1 in
      let (a, b) = AllAbove-split (key z) xs (x ∷ ys) v.0 in
      record { left = (a, p.left); right = p.right; below = (b.0, p.below); above = p.above }

  above_through :
      (z x : ℕ) (ys : List ℕ) → key z < key x → AllAbove (key x) ys → AllAbove (key z) (x ∷ ys)
  above_through z x ys h v = (h, AllAbove-mono (key z) (key x) ys h v)

  pub Parted-Rising : (xs : List ℕ) (x : ℕ) (ys : List ℕ) → Parted xs x ys → Rising (xs ++ (x ∷ ys))
  Parted-Rising [] x ys p = (p.above, p.right)
  Parted-Rising (z ∷ xs) x ys p = (
    AllAbove-join (key z) xs (x ∷ ys) p.left.0 (above_through z x ys p.below.0 p.above),
    Parted-Rising xs x ys
        (record { left = p.left.1; right = p.right; below = p.below.1; above = p.above }),
  )

  pub find_task_below : (k a : ℕ) (xs : List ℕ) → AllBelow a xs → a < k + 1 → find_task k xs ≡ none
  find_task_below k a [] v h = refl
  find_task_below k a (x ∷ xs) v h = ground (arith, find_task_below k a xs v.1)

  pub find_task_above : (k a : ℕ) (xs : List ℕ) → AllAbove a xs → k < a + 1 → find_task k xs ≡ none
  find_task_above k a [] v h = refl
  find_task_above k a (x ∷ xs) v h = ground (arith, find_task_above k a xs v.1)

  pub find_task-append :
      (k : ℕ) (xs ys : List ℕ) → find_task k xs ≡ none → find_task k (xs ++ ys) ≡ find_task k ys
  find_task-append k [] ys h = refl
  find_task-append k (x ∷ xs) ys h = ground (arith, find_task-append k xs ys)

  pub find_task-append_left :
      (k : ℕ) (xs ys : List ℕ) → find_task k ys ≡ none → find_task k (xs ++ ys) ≡ find_task k xs
  find_task-append_left k [] ys h = h
  find_task-append_left k (x ∷ xs) ys h = ground (arith, find_task-append_left k xs ys h)
