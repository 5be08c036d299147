-- ===== src/MultilevelVecMap/Lookup.antt =====
-- What `get` finds after `insert`.
use grid_server.Base.{
  ℕ, zero, suc, ◌≡◌, refl, Bool, ◌&&◌, Option, none, some, ◌==◌, if◌then◌else◌, List, ok, if_app,
  Returns, Returns-bind, returns, undefined, ◌>>=◌, ==_iff, Bool-cases, inl, inr, ◌∙◌, ap,
}
use grid_server.MultilevelVecMap.{
  Entry, empty, value, level, Entries, nil, put, nth_or, part, insert_into,
}
use grid_server.MultilevelVecMap.Slots.{
  nth_or-put, IsEntry, AreEntries, AreEntries-put, entry_value, entry_level, find,
}

-- The keys agree from a depth on, the parts that they lack being zero.
abbrev pub same_from : (left depth : ℕ) → List ℕ → List ℕ → Bool
same_from zero depth a b = part a depth == part b depth
same_from (suc left) depth a b = part a depth == part b depth && same_from left (suc depth) a b

module _ {T : Type 0} where
  -- `out` has the value that the key had, and the vector with `y` there.
  pub record ChangedInto (left depth : ℕ) (es : Entries T) (key : List ℕ) (y : Option T)
      (out : Option T × Entries T) : Type 0 where
    pub old : out.0 ≡ find left depth es key
    pub nested : AreEntries left out.1
    pub found :
        (k : List ℕ)
        → find left depth out.1 k ≡ (if same_from left depth key k then y else find left depth es k)

  pub last-ChangedInto :
      (depth : ℕ) (es : Entries T) (key : List ℕ) (e : Entry T)
      → AreEntries 0 es
      → IsEntry 0 e
      → ChangedInto 0 depth es key
          (entry_value e)
          (entry_value (nth_or empty es (part key depth)), put empty es (part key depth) e)
  last-ChangedInto depth es key e h fits = record {
    old = refl;
    nested = AreEntries-put 0 es (part key depth) e h fits;
    found = λ k.
        rw (nth_or-put empty es (part key depth) (part k depth) e)
          (if_app entry_value (part key depth == part k depth) e (nth_or empty es (part k depth)));
  }

  pub next-ChangedInto :
      (left depth : ℕ) (es inner : Entries T) (key : List ℕ) (y : Option T)
      (out : Option T × Entries T)
      → entry_level (nth_or (level nil) es (part key depth)) ≡ inner
      → AreEntries (suc left) es
      → ChangedInto left (suc depth) inner key y out
      → ChangedInto
          (suc left)
          depth
          es
          key
          y
          (out.0, put (level nil) es (part key depth) (level out.1))
  next-ChangedInto left depth es inner key y out here h below = record {
    old = rw here below.old;
    nested = AreEntries-put (suc left) es (part key depth) (level out.1) h below.nested;
    found = λ k.
        rw (nth_or-put (level nil) es (part key depth) (part k depth) (level out.1))
          (elim (Bool-cases (part key depth == part k depth)) [
            | inl e ↦
                let at : part key depth ≡ part k depth =
                  (==_iff (part key depth) (part k depth)).0 e in
                rw e (below.found k ∙ rw (← here) (rw at refl))
            | inr e ↦ rw e refl
          ]);
  }

  insert_into-next :
      (left depth : ℕ) (es : Entries T) (key : List ℕ) (x : T)
      → ((inner : Entries T)
          → AreEntries left inner
          → Returns
              (ChangedInto left (suc depth) inner key (some x))
              (insert_into left (suc depth) inner key x))
      → AreEntries (suc left) es
      → Returns
          (ChangedInto (suc left) depth es key (some x))
          (insert_into (suc left) depth es key x)
  unfolding insert_into
  insert_into-next left depth es key x below h =
      go (nth_or (level nil) es (part key depth)) refl (h (part key depth))
    where
      go :
          (e : Entry T)
          → nth_or (level nil) es (part key depth) ≡ e
          → IsEntry (suc left) e
          → Returns (ChangedInto (suc left) depth es key (some x)) (elim e [
            | level inner ↦ do
              (old, grown) ← insert_into left (suc depth) inner key x
              ok (old, put (level nil) es (part key depth) (level grown))
            | _ ↦ undefined
          ])
      go empty at fits = elim fits [ ]
      go (value old) at fits = elim fits [ ]
      go (level inner) at fits = Returns-bind (below inner fits) (λ out done.
          returns
            (next-ChangedInto left depth es inner key (some x) out (ap entry_level at) h done))

  insert_into-last :
      (depth : ℕ) (es : Entries T) (key : List ℕ) (x : T)
      → AreEntries 0 es
      → Returns (ChangedInto 0 depth es key (some x)) (insert_into 0 depth es key x)
  unfolding insert_into
  insert_into-last depth es key x h =
      go (nth_or empty es (part key depth)) (h (part key depth))
        (last-ChangedInto depth es key (value x) h tt)
    where
      go :
          (e : Entry T)
          → IsEntry 0 e
          → ChangedInto 0 depth es key
              (some x)
              (entry_value e, put empty es (part key depth) (value x))
          → Returns (ChangedInto 0 depth es key (some x)) (elim e [
            | empty ↦ ok (none, put empty es (part key depth) (value x))
            | value old ↦ ok (some old, put empty es (part key depth) (value x))
            | level inner ↦ undefined
          ])
      go empty fits done = returns done
      go (value old) fits done = returns done
      go (level inner) fits done = elim fits [ ]

  pub insert_into_lem :
      (left depth : ℕ) (es : Entries T) (key : List ℕ) (x : T)
      → AreEntries left es
      → Returns (ChangedInto left depth es key (some x)) (insert_into left depth es key x)
  insert_into_lem zero depth es key x h = insert_into-last depth es key x h
  insert_into_lem (suc left) depth es key x h =
      insert_into-next left depth es key x
        (λ inner g. insert_into_lem left (suc depth) inner key x g) h
