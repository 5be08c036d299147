-- ===== src/LinkedVecMap/Ring.antt =====
-- The ring of nodes: from the guard by `prev` over the items, the oldest first, back to the guard, and
-- by `next` the other way.
use grid_server.Base.{
  ℕ, ◌≡◌, refl, ap, ◌∙◌, true, false, Option, none, some, List, [], ◌∷◌, ◌++◌, arith, ◌==◌,
}
use grid_server.LinkedVecMap.{Node}
use grid_server.LinkedVecMap.Members.{mem, Distinct, mem_ne, last, mem-last}

pub record Item (V : Type 0) : Type 0 where
  pub addr : ℕ
  pub key : ℕ
  pub val : V

module _ {V : Type 0} where
  abbrev pub addrs : List (Item V) → List ℕ
  addrs [] = []
  addrs (x ∷ xs) = x.addr ∷ addrs xs

  abbrev pub next_of : Option (Node V) → Option ℕ
  next_of none = none
  next_of (some node) = some node.next

  abbrev pub prev_of : Option (Node V) → Option ℕ
  prev_of none = none
  prev_of (some node) = some node.prev

  abbrev pub entry_of : Option (Node V) → Option (ℕ × V)
  entry_of none = none
  entry_of (some node) = node.entry

  -- From `a` over the items.
  abbrev pub Chain : (ℕ → Option (Node V)) → ℕ → List (Item V) → Type 0
  Chain c a [] = Unit
  Chain c a (x ∷ xs) =
      (prev_of (c a) ≡ some x.addr)
      × (next_of (c x.addr) ≡ some a)
      × (entry_of (c x.addr) ≡ some (x.key, x.val))
      × Chain c x.addr xs

  pub record Ring (c : ℕ → Option (Node V)) (head : ℕ) (xs : List (Item V)) : Type 0 where
    pub path : Chain c head xs
    pub close_prev : prev_of (c (last head (addrs xs))) ≡ some head
    pub close_next : next_of (c head) ≡ some (last head (addrs xs))

  pub addrs-append : (xs ys : List (Item V)) → addrs (xs ++ ys) ≡ addrs xs ++ addrs ys
  addrs-append [] ys = refl
  addrs-append (x ∷ xs) ys = ap (◌∷◌ x.addr) (addrs-append xs ys)

  pub Chain-split :
      (c : ℕ → Option (Node V)) (a : ℕ) (xs ys : List (Item V))
      → Chain c a (xs ++ ys)
      → Chain c a xs × Chain c (last a (addrs xs)) ys
  Chain-split c a [] ys p = (tt, p)
  Chain-split c a (x ∷ xs) ys (q, n, e, p) =
      let (first, second) = Chain-split c x.addr xs ys p in ((q, n, e, first), second)

  pub Chain-join :
      (c : ℕ → Option (Node V)) (a : ℕ) (xs ys : List (Item V))
      → Chain c a xs
      → Chain c (last a (addrs xs)) ys
      → Chain c a (xs ++ ys)
  Chain-join c a [] ys first second = second
  Chain-join c a (x ∷ xs) ys (q, n, e, p) second = (q, n, e, Chain-join c x.addr xs ys p second)

  -- A path stays where its cells have the same links: the `prev` of the last one is not part of it.
  pub Chain-frame :
      (c c' : ℕ → Option (Node V)) (a : ℕ) (xs : List (Item V))
      → Distinct (a ∷ addrs xs)
      → ((j : ℕ)
          → mem j (addrs xs) ≡ true
          → (next_of (c' j) ≡ next_of (c j)) × (entry_of (c' j) ≡ entry_of (c j)))
      → ((j : ℕ)
          → mem j (a ∷ addrs xs) ≡ true
          → (last a (addrs xs) == j) ≡ false
          → prev_of (c' j) ≡ prev_of (c j))
      → Chain c a xs
      → Chain c' a xs
  Chain-frame c c' a [] d same before p = tt
  Chain-frame c c' a (x ∷ xs) d same before (q, n, e, p) =
      let here : mem x.addr (addrs (x ∷ xs)) ≡ true = ground arith in
      let first : mem a (a ∷ addrs (x ∷ xs)) ≡ true = ground arith in
      let apart =
        mem_ne (last x.addr (addrs xs)) a (x.addr ∷ addrs xs) (mem-last x.addr (addrs xs)) d.0 in
      (
        before a first apart ∙ q,
        (same x.addr here).0 ∙ n,
        (same x.addr here).1 ∙ e,
        Chain-frame c c' x.addr xs d.1 (λ j m. same j (ground (arith, m)))
            (λ j m l. before j (ground (arith, m)) l) p,
      )
