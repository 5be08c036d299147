-- ===== src/Buffer.antt =====
-- shared/src/utils/buffer.rs: a buffer of fixed size whose slots are `MaybeUninit`, here options.
-- Reading a slot that was never written is `undefined`.
pub mod Contents
mod Tests
use grid_server.Base.{
  inl, inr, ◌⊎◌, ℕ, ◌+◌, ◌-◌, ◌≤◌, ◌≡◌, Bool, true, false, Option, none, some, List, [], ◌∷◌, ◌++◌,
  map, Run, ok, panic, undefined, ◌>>=◌, length, get_elem?, set, take, replicate, leb, ltb, ◌==◌,
  if◌then◌else◌,
}

-- `slots` is the field `data`, an array of `N`.
pub record Buffer {ℓ} (T : Type ℓ) (N : ℕ) : Type ℓ where
  pub filled : ℕ
  pub slots : List (Option T)

pub record BufferIter {ℓ} (T : Type ℓ) (N : ℕ) : Type ℓ where
  pub filled : ℕ
  pub cursor : ℕ
  pub slots : List (Option T)

pub data UnfilledBuffer : Type 0 where
  unfilled : ℕ → UnfilledBuffer

module _ {ℓ} {T : Type ℓ} where
  -- `array_assume_init` and `slice_assume_init_ref`.
  unfoldable pub assume_init : List (Option T) → Run (List T)
  assume_init [] = ok []
  assume_init (none ∷ slots) = undefined
  assume_init (some x ∷ slots) = do xs ← assume_init slots; ok (x ∷ xs)

  -- `data[i].write(item)`
  unfoldable pub write : List (Option T) → ℕ → T → Run (List (Option T))
  write slots i item = if ltb i (length slots) then ok (set slots i (some item)) else panic

module _ {ℓ} {T : Type ℓ} {N : ℕ} where
  unfoldable pub new : Buffer T N
  new = record { filled = 0; slots = replicate N none }

  -- A full buffer is handed out whole, and the item starts the next one.
  unfoldable pub push : Buffer T N → T → Run (Option (List T) × Buffer T N)
  unfolding assume_init write
  push b item =
      if b.filled == N
      then (do
        filled_buf ← assume_init b.slots
        slots ← write (replicate N none) 0 item
        ok (some filled_buf, record { filled = 1; slots = slots }))
      else (do
        slots ← write b.slots b.filled item
        ok (none, record { filled = b.filled + 1; slots = slots }))

  unfoldable pub is_filled : Buffer T N → Bool
  is_filled b = b.filled == N

  unfoldable pub filled_slice : Buffer T N → Run (List T)
  unfolding assume_init
  filled_slice b =
      if leb b.filled (length b.slots) then assume_init (take b.filled b.slots) else panic

  unfoldable pub clear : Buffer T N → Buffer T N
  clear b = record b { filled = 0 }

  -- `From<[T; N]>`
  unfoldable pub from_array : List T → Buffer T N
  from_array value = record { filled = N; slots = map some value }

  -- `TryInto<[T; N]>`
  unfoldable pub try_into : Buffer T N → Run (UnfilledBuffer ⊎ List T)
  unfolding assume_init
  try_into b =
      if b.filled == N
      then (do xs ← assume_init b.slots; ok (inr xs))
      else ok (inl (unfilled (N - b.filled)))

  unfoldable pub into_iter : Buffer T N → BufferIter T N
  into_iter b = record { cursor = 0; filled = b.filled; slots = b.slots }

  -- The cursor is read and not moved.
  unfoldable pub next : BufferIter T N → Run (Option T × BufferIter T N)
  next it =
      if ltb it.cursor it.filled
      then (elim (get_elem? it.slots it.cursor) [ some (some x) ↦ ok (some x, it) | _ ↦ undefined ])
      else ok (none, it)
