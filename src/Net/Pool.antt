-- ===== src/Net/Pool.antt =====
-- kernel/net/queue.cpp (request_packet and the pool of net::init), kernel/arraylist.hpp and the counted
-- references of kernel/ktypes.hpp.
pub mod Counts
pub mod Exact
pub mod Enough
use xivix.Base.{
  ℕ, zero, suc, ◌+◌, ◌-◌, ◌*◌, ◌/◌, ◌%◌, List, [], ◌∷◌, Option, none, some, if◌then◌else◌, ◌==◌,
  get_or, set, has, replicate,
}
use xivix.Base.Word.{u32, sub32}

-- The packets of the pool by their place: the count of each and its size. A `Ref<Packet>` is a place or null.
pub record Pool : Type 0 where
  pub ref_count : List ℕ
  pub size : List ℕ

abbrev pub ref_at : Pool → ℕ → ℕ
ref_at s p = get_or s.ref_count p 0

-- `RefCountable::addref` and `RefCountable::deref`
unfoldable pub addref : ℕ → Pool → Pool
addref p s = record s { ref_count = set s.ref_count p (u32 (ref_at s p + 1)) }

unfoldable pub deref : ℕ → Pool → Pool
deref p s = record s { ref_count = set s.ref_count p (sub32 (ref_at s p) 1) }

-- A copy of a reference, and the end of one.
unfoldable pub take_ref : Option ℕ → Pool → Pool
take_ref none s = s
take_ref (some p) s = addref p s

unfoldable pub drop_ref : Option ℕ → Pool → Pool
drop_ref none s = s
drop_ref (some p) s = deref p s

-- `Ref::reset` of a reference that was `old`.
unfoldable pub reset : Option ℕ → Option ℕ → Pool → Pool
reset old rc s = drop_ref old (take_ref rc s)

-- The first packet from place `i` on that nothing refers to.
unfoldable pub first_free : List ℕ → ℕ → Option ℕ
first_free [] i = none
first_free (c ∷ cs) i = if c == 0 then some i else first_free cs (i + 1)

-- `request_packet` of a reference that was `old`: the new reference and the pool.
unfoldable pub request_packet : Option ℕ → Pool → Option ℕ × Pool
request_packet old s = let p = first_free s.ref_count 0 in (p, reset old p s)

-- `ArrayList<Packet, mem::PAGE_SIZE>::blockent`, with a next pointer of 4 bytes and packets of 12.
abbrev pub blockent : ℕ
blockent = (0x1000 - 16) / 12

-- The pool that `net::init` makes of one page, and the buffers, two to a page of `pktbuffers`.
unfoldable pub new_pool : List ℕ → Pool
new_pool size = record { ref_count = replicate blockent 0; size = size }

unfoldable pub buffer_pages : ℕ
buffer_pages = (if has blockent 1 then blockent + 1 else blockent) / 2

unfoldable pub buffer : ℕ → ℕ → ℕ
buffer pktbuffers i = u32 (pktbuffers + 2048 * i)
