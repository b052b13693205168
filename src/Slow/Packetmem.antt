-- ===== src/Slow/Packetmem.antt =====
-- The packet memory of a VM, tas/slow/packetmem.c: lists of free blocks, one list for each VM, first
-- fit, and merging when a block is freed. A list of handles is a list of blocks; blocks lie within a
-- memory of `dma_mem_size` bytes, so their ends do not wrap. `malloc` is not modelled: whether it has
-- memory for one more handle is an argument.
pub mod Cover
pub mod Order
use tas.Base.{
  ℕ, ◌+◌, ◌-◌, Bool, true, false, Option, none, some, List, [], ◌∷◌, ltb, ◌==◌, if◌then◌else◌, put,
  ◌>>=◌,
}

-- `struct packetmem_handle`
pub record Handle : Type 0 where
  pub base : ℕ
  pub len : ℕ

-- `freelist`
abbrev pub FreeLists : Type 0
FreeLists = ℕ → List Handle

-- Every VM's list is one block from `config.data_mem_off` to the end of the memory, if `malloc` has memory
-- for all of them.
unfoldable pub packetmem_init : (data_mem_off dma_mem_size : ℕ) → FreeLists
packetmem_init data_mem_off dma_mem_size vmid =
    record { base = data_mem_off; len = dma_mem_size - data_mem_off } ∷ []

-- the block to hand out of `ph`, which is long enough and has `rest` behind it
unfoldable pub take_block : Bool → ℕ → Handle → List Handle → Option (Handle × List Handle)
take_block ph_alloc length ph rest =
    if ph.len == length
    then some (ph, rest)
    else if ph_alloc
    then some (
      record { base = ph.base; len = length },
      record { base = ph.base + length; len = ph.len - length } ∷ rest,
    )
    else none

-- The block and the list that is left, or nothing for -1.
unfoldable pub alloc_block : Bool → ℕ → List Handle → Option (Handle × List Handle)
alloc_block ph_alloc length [] = none
alloc_block ph_alloc length (ph ∷ rest) =
    let later = alloc_block ph_alloc length rest >>= (λ r. some (r.0, ph ∷ r.1)) in
    if ltb ph.len length then later else take_block ph_alloc length ph rest

unfoldable pub packetmem_alloc : Bool → ℕ → FreeLists → ℕ → Option (Handle × FreeLists)
packetmem_alloc ph_alloc length freelist vmid =
    alloc_block ph_alloc length (freelist vmid) >>= (λ r. some (r.0, put freelist vmid r.1))

-- the second half of `merge_items`
unfoldable pub merge_successor : Handle → List Handle → List Handle
merge_successor ph [] = ph ∷ []
merge_successor ph (ph_next ∷ rest) =
    if ph.base + ph.len == ph_next.base
    then record { base = ph.base; len = ph.len + ph_next.len } ∷ rest
    else ph ∷ ph_next ∷ rest

-- `merge_items` with a predecessor
unfoldable pub merge_items : Handle → Handle → List Handle → List Handle
merge_items ph_prev ph rest =
    if ph_prev.base + ph_prev.len == ph.base
    then merge_successor (record { base = ph_prev.base; len = ph_prev.len + ph.len }) rest
    else ph_prev ∷ merge_successor ph rest

-- `ph->next != NULL && ph->next->base < handle->base`, given what follows `ph`
unfoldable pub walks_on : Handle → List Handle → Bool
walks_on handle [] = false
walks_on handle (ph_next ∷ rest) = ltb ph_next.base handle.base

-- The loop of `packetmem_free` after its first step: `ph_prev` and then the blocks from `ph` on.
unfoldable pub free_after : Handle → Handle → List Handle → List Handle
free_after handle ph_prev [] = merge_items ph_prev handle []
free_after handle ph_prev (ph ∷ rest) =
    let further = free_after handle ph rest in
    if walks_on handle rest then ph_prev ∷ further else merge_items ph_prev handle (ph ∷ rest)

unfoldable pub free_block : Handle → List Handle → List Handle
free_block handle [] = merge_successor handle []
free_block handle (ph ∷ rest) =
    if walks_on handle rest then free_after handle ph rest else merge_successor handle (ph ∷ rest)

unfoldable pub packetmem_free : Handle → FreeLists → ℕ → FreeLists
packetmem_free handle freelist vmid = put freelist vmid (free_block handle (freelist vmid))
