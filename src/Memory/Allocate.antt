-- ===== src/Memory/Allocate.antt =====
-- kernel/memory.cpp: `allocate`, and `aquire`, which asks for more memory. The call of `vmm_request` there,
-- for a number of bytes, is an argument, since it allocates again: its result is an address, or 0, and the
-- state after it.
pub mod Grant
use xivix.Base.{
  ℕ, ◌≡◌, refl, ◌+◌, ◌*◌, ◌/◌, ◌%◌, Bool, true, false, if◌then◌else◌, ◌==◌, ◌&&◌, ltb, leb,
}
use xivix.Base.Word.{u32}
use xivix.Memory.{
  PageAllocator, extent_at, page_size, mx_free, set_extent, add_extent, find_free_extent,
}

-- An allocator as a part of a larger state, which is what the calls of `vmm_request` change.
pub record Part (S : Type 0) : Type 0 where
  pub get : S → PageAllocator
  pub put : PageAllocator → S → S
  pub get_put : (a : PageAllocator) (s : S) → get (put a s) ≡ a
  pub put_put : (a b : PageAllocator) (s : S) → put a (put b s) ≡ put a s

-- The allocator alone.
abbrev pub whole : Part PageAllocator
whole = record { get = λ s. s; put = λ a s. a; get_put = λ a s. refl; put_put = λ a b s. refl }

abbrev pub Request : Type 0 → Type 0
Request S = ℕ → S → ℕ × S

-- `allocate` where the extent `ifree` serves.
unfoldable pub take_free : ℕ → ℕ → PageAllocator → ℕ × PageAllocator
take_free l f s = let mm = (extent_at s s.ifree).base in (mm, set_extent mm l f s)

abbrev pub serves : ℕ → PageAllocator → Bool
serves l s = leb l (extent_at s s.ifree).length && (extent_at s s.ifree).flags == mx_free

module _ {S : Type 0} (p : Part S) where
  -- The result of an allocator, with the state around it.
  abbrev pub within : S → ℕ × PageAllocator → ℕ × S
  within s (mm, a) = (mm, p.put a s)

  -- `req_allocrange` with the address that it got, and `add_memory_callback`, whose count of bytes
  -- `add_extent` takes as a count of pages. The Boolean says that there is more memory.
  unfoldable pub add_range : ℕ → ℕ × S → Bool × S
  add_range mmb (bu, s) =
      if bu == 0
      then (false, s)
      else (true, p.put (add_extent bu (u32 (page_size * mmb)) mx_free (p.get s)) s)

  -- `req_allocrange`
  unfoldable pub req_allocrange : Request S → ℕ → S → Bool × S
  req_allocrange request ml s =
      let mmb = ml / page_size + (if ltb 0 (ml % page_size) then 1 else 0) in
      add_range mmb (request (u32 (mmb * page_size)) s)

  -- `aquire`. The least size, `16 * (BLOCKSIZE / PAGE_SIZE)`, is 0.
  unfoldable pub aquire : Request S → ℕ → S → Bool × S
  aquire request l s =
      let least = 16 * (0x800 / page_size) in
      req_allocrange request (if ltb l least then least else l) s

  -- The end of `allocate`, after `aquire`.
  unfoldable pub take_acquired : ℕ → ℕ → Bool × S → ℕ × S
  take_acquired l f (false, s) = (0, s)
  take_acquired l f (true, s) =
      let a = p.get s in
      let mm = (extent_at a a.ifree).base in
      (mm, p.put (find_free_extent 1 (set_extent mm l f a)) s)

  -- `allocate` from where `ifree` is known to be of free memory.
  unfoldable pub allocate_free : Request S → ℕ → ℕ → S → ℕ × S
  allocate_free request l f s =
      let a = p.get s in
      let found = find_free_extent l a in
      if leb l (extent_at a a.ifree).length
      then within s (take_free l f a)
      else if serves l found
      then within s (take_free l f found)
      else take_acquired l f (aquire request l (p.put (find_free_extent 0 found) s))

  -- `allocate`, where `active` is set.
  unfoldable pub allocate : Request S → ℕ → ℕ → S → ℕ × S
  allocate request l f s =
      let a = p.get s in
      let a' = if (extent_at a a.ifree).flags == mx_free then a else find_free_extent l a in
      if (extent_at a' a'.ifree).flags == mx_free
      then allocate_free request l f (p.put a' s)
      else (0, p.put a' s)
