-- ===== src/Traffic/Order.antt =====
-- Messages of one sender in the order of its calls.
use strong_ipc.Prelude.{
  ℕ, ◌≤◌, ◌<◌, ◌≡◌, ◌≢◌, sym, List, [], ◌∷◌, ◌++◌, All, All-append_left, All-weaken, arith,
}
use strong_ipc.Traffic.{Sent}

-- `y` is not of `x`'s sender, or of a later call.
abbrev pub Precedes : Sent → Sent → Type 0
Precedes x y = x.sender ≡ y.sender → x.seq < y.seq

abbrev pub Ordered : List Sent → Type 0
Ordered [] = Unit {0}
Ordered (x ∷ xs) = All (Precedes x) xs × Ordered xs

-- No message of sender `i`
abbrev pub NoneOf : ℕ → List Sent → Type 0
NoneOf i = All (λ x. x.sender ≢ i)

All-insert {κ} :
    {A : Type 0} (P : A → Type κ) (xs ys : List A) (m : A)
    → All P (xs ++ ys)
    → P m
    → All P (xs ++ (m ∷ ys))
All-insert P [] ys m h p = (p, h)
All-insert P (x ∷ xs) ys m h p = (h.0, All-insert P xs ys m h.1 p)

-- A message may enter a line behind all messages of its sender.
pub Ordered-insert :
    (xs ys : List Sent) (m : Sent)
    → Ordered (xs ++ ys)
    → All (λ x. Precedes x m) xs
    → NoneOf m.sender ys
    → Ordered (xs ++ (m ∷ ys))
Ordered-insert [] ys m o b a = (NoneOf-Precedes ys a, o)
  where
    NoneOf-Precedes : (l : List Sent) → NoneOf m.sender l → All (Precedes m) l
    NoneOf-Precedes [] h = tt
    NoneOf-Precedes (x ∷ l) h = (λ e. absurd (h.0 (sym e)), NoneOf-Precedes l h.1)
Ordered-insert (x ∷ xs) ys m o b a =
    (All-insert (Precedes x) xs ys m o.0 b.0, Ordered-insert xs ys m o.1 b.1 a)

All-remove {κ} :
    {A : Type 0} (P : A → Type κ) (xs ys : List A) (m : A)
    → All P (xs ++ (m ∷ ys))
    → All P (xs ++ ys)
All-remove P [] ys m h = h.1
All-remove P (x ∷ xs) ys m h = (h.0, All-remove P xs ys m h.1)

-- Losing messages leaves the others in order.
pub Ordered-remove : (xs ys : List Sent) (m : Sent) → Ordered (xs ++ (m ∷ ys)) → Ordered (xs ++ ys)
Ordered-remove [] ys m o = o.1
Ordered-remove (x ∷ xs) ys m o = (All-remove (Precedes x) xs ys m o.0, Ordered-remove xs ys m o.1)

pub Ordered-append_left : (xs ys : List Sent) → Ordered (xs ++ ys) → Ordered xs
Ordered-append_left [] ys o = tt
Ordered-append_left (x ∷ xs) ys o =
    (All-append_left (Precedes x) xs ys o.0, Ordered-append_left xs ys o.1)

-- Each message is older than the next call of its sender.
abbrev pub Fresh : (ℕ → ℕ) → List Sent → Type 0
Fresh next = All (λ x. x.seq < next x.sender)

abbrev pub Good : (ℕ → ℕ) → List Sent → Type 0
Good next l = Ordered l × Fresh next l

module _ (next next' : ℕ → ℕ) (grows : (j : ℕ) → next j ≤ next' j) where
  Fresh-mono : (l : List Sent) → Fresh next l → Fresh next' l
  Fresh-mono l f = All-weaken _ _ (λ x lt. omega (arith, grows x.sender)) l f

  pub Good-mono : (l : List Sent) → Good next l → Good next' l
  Good-mono l g = (g.0, Fresh-mono l g.1)

  -- A call's message enters where nothing of its sender is behind it.
  pub Good-insert :
      (xs ys : List Sent) (m : Sent)
      → m.seq ≡ next m.sender
      → next m.sender < next' m.sender
      → NoneOf m.sender ys
      → Good next (xs ++ ys)
      → Good next' (xs ++ (m ∷ ys))
  Good-insert xs ys m e lt a g = (
    Ordered-insert xs ys m g.0 (All-weaken _ _ (older m e) xs (All-append_left _ xs ys g.1)) a,
    All-insert _ xs ys m (Fresh-mono (xs ++ ys) g.1) (omega arith),
  )
    where
      older : (m : Sent) → m.seq ≡ next m.sender → (x : Sent) → x.seq < next x.sender → Precedes x m
      older m e x h same = grind arith

pub Good-remove :
    (next : ℕ → ℕ) (xs ys : List Sent) (m : Sent)
    → Good next (xs ++ (m ∷ ys))
    → Good next (xs ++ ys)
Good-remove next xs ys m g = (Ordered-remove xs ys m g.0, All-remove _ xs ys m g.1)

pub Good-append_left : (next : ℕ → ℕ) (xs ys : List Sent) → Good next (xs ++ ys) → Good next xs
Good-append_left next xs ys g = (Ordered-append_left xs ys g.0, All-append_left _ xs ys g.1)
