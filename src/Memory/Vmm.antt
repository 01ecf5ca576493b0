-- ===== src/Memory/Vmm.antt =====
-- kernel/memory.cpp: `vmm_request` and `kmalloc`, with both allocators and the page tables.
pub mod Fresh
pub mod Mapped
pub mod Area
pub mod Kmalloc
pub mod Device
pub mod Exhausted
mod Tests
use xivix.Base.{
  ℕ, zero, suc, ◌+◌, ◌-◌, ◌*◌, ◌/◌, ◌%◌, Bool, true, false, if◌then◌else◌, ◌==◌, ltb, leb, has,
  bit_or, Option, none, some, ◌≡◌, refl,
}
use xivix.Base.Word.{u32}
use xivix.Memory.{PageAllocator, page_size, mx_io, mx_alloc, mx_pre, set_extent, find_type_extent}
use xivix.Memory.Allocate.{Part, Request, allocate}
use xivix.Memory.Paging.{Paging, pg_writable, pg_large, count_page_structs, map_page, map_pages}
use mathlib.Core.Option

-- `phymm`, and the page tables with `vmm`.
pub record Vm : Type 0 where
  pub paging : Paging
  pub phymm : PageAllocator

abbrev pub physical : Part Vm
physical = record {
  get = λ s. s.phymm;
  put = λ a s. record s { phymm = a };
  get_put = λ a s. refl;
  put_put = λ a b s. refl;
}

abbrev pub virtual : Part Vm
virtual = record {
  get = λ s. s.paging.vmm;
  put = λ a s. record s { paging = record s.paging { vmm = a } };
  get_put = λ a s. refl;
  put_put = λ a b s. refl;
}

-- The flags of a request.
abbrev pub rq_hint : ℕ
rq_hint = 0x1

abbrev pub rq_rw : ℕ
rq_rw = 0x2

abbrev pub rq_alloc : ℕ
rq_alloc = 0x4

abbrev pub rq_large : ℕ
rq_large = 0x80

abbrev pub rq_wcd : ℕ
rq_wcd = 0x400

abbrev pub rq_rcd : ℕ
rq_rcd = 0x800

-- `mapflag`
unfoldable pub map_flags : ℕ → ℕ
map_flags flag =
    let rw_flag = if has flag rq_rw then pg_writable else 0 in
    let cd_flag = if has flag rq_rcd then 0x10 else 0 in
    let wt_flag = if has flag rq_wcd then 0x8 else 0 in
    rw_flag + cd_flag + wt_flag + (if has flag rq_large then pg_large else 0)

-- The use of the virtual memory of a request.
unfoldable pub kind_of : ℕ → ℕ
kind_of flag = if has flag rq_alloc then mx_alloc else mx_io

-- The whole pages of `sz` bytes.
unfoldable pub page_count : ℕ → ℕ
page_count sz = sz / page_size + (if ltb 0 (sz % page_size) then 1 else 0)

-- The pages at the address that is asked for: where they begin and end.
unfoldable pub place_hint : ℕ → ℕ → ℕ → Vm → Option (ℕ × ℕ) × Vm
place_hint sz hint flag s =
    let bega = hint / page_size * page_size in
    let enda = u32 (bega + page_count sz * page_size) in
    if leb enda bega then (none, s) else if ltb bega 0x1_0000 then (none, s) else (
      some (bega, enda),
      virtual.put (set_extent bega ((enda - bega) / page_size) (kind_of flag) (virtual.get s)) s,
    )

-- Pages wherever there are enough of them.
unfoldable pub place_any : Request Vm → ℕ → ℕ → Vm → Option (ℕ × ℕ) × Vm
place_any request sz flag s =
    let pgc = page_count sz in
    let (bu, s') = allocate virtual request pgc (kind_of flag) s in
    let bega = u32 bu in
    let enda = u32 (bega + pgc * page_size) in
    if ltb enda bega then (none, s') else (some (bega, enda), s')

-- `n` pages of physical memory at `bega` and behind it. The Boolean says that there were enough.
unfoldable pub map_fresh : Request Vm → ℕ → ℕ → ℕ → ℕ → Vm → Bool × Vm
map_fresh request pg_size zero bega mapflag s = (true, s)
map_fresh request pg_size (suc n) bega mapflag s =
    let (ph, s') = allocate physical request 1 mx_alloc s in
    let rest =
      map_fresh request pg_size n (bega + pg_size) mapflag
        (record s' { paging = map_page ph bega mapflag s'.paging }) in
    if ph == 0 then (false, s') else rest

-- Memory for the page tables of a request, in reserve.
unfoldable pub reserve : Request Vm → ℕ → Vm → Bool × Vm
reserve request pgsr s =
    let (bu, s') = allocate virtual request pgsr mx_pre s in
    if bu == 0 then (false, s') else map_fresh request page_size pgsr bu pg_writable s'

unfoldable pub add_structs : Request Vm → ℕ → ℕ → Vm → Bool × Vm
add_structs request bega enda s =
    let pgsr = count_page_structs bega ((enda - bega) / page_size) s.paging in
    if pgsr == 0 then (true, s) else elim (find_type_extent 1 mx_pre (virtual.get s).extents) [
      | none ↦ reserve request (u32 (pgsr + 8)) s
      | some i ↦ reserve request pgsr s
    ]

-- The last part of `vmm_request`: a round for the page at `bega`, and one for each page behind it that begins below
-- `enda`. A large page that would go beyond 4 GB, where `bega` wraps, is not modelled.
unfoldable pub map_range : Request Vm → ℕ → ℕ → ℕ → ℕ → Vm → ℕ × Vm
map_range request bega enda phys flag s =
    let pg_size = if has flag rq_large then 0x20_0000 else page_size in
    let more = (enda - bega - 1) / pg_size in
    if has flag rq_alloc
    then (let (ok, s') = map_fresh request pg_size (suc more) bega (map_flags flag) s in
        (if ok then bega else 0, s'))
    else (bega, record s { paging = map_pages pg_size more phys bega (map_flags flag) s.paging })

unfoldable pub fill : Request Vm → ℕ → ℕ → Option (ℕ × ℕ) × Vm → ℕ × Vm
fill request phys flag (none, s) = (0, s)
fill request phys flag (some (bega, enda), s) =
    let structs = if has flag rq_large then (true, s) else add_structs request bega enda s in
    if structs.0 then map_range request bega enda phys flag structs.1 else (0, structs.1)

-- A call of `vmm_request` for `sz` bytes, with what the calls do that `allocate` makes.
unfoldable pub vmm_call : Request Vm → ℕ → ℕ → ℕ → ℕ → Vm → ℕ × Vm
vmm_call request sz hint phys flag s =
    fill request phys flag
      (if has flag rq_hint then place_hint sz hint flag s else place_any request sz flag s)

-- `vmm_request`, with `depth` calls inside each other; one more has no memory.
unfoldable pub vmm_request : ℕ → ℕ → ℕ → ℕ → ℕ → Vm → ℕ × Vm
vmm_request zero sz hint phys flag s = vmm_call (λ n t. (0, t)) sz hint phys flag s
vmm_request (suc depth) sz hint phys flag s =
    vmm_call (λ n t. vmm_request depth n 0 0 (bit_or rq_rw rq_alloc) t) sz hint phys flag s

-- `kmalloc`
unfoldable pub kmalloc : ℕ → ℕ → Vm → ℕ × Vm
kmalloc depth l s = vmm_request depth l 0 0 (bit_or rq_rw rq_alloc) s
