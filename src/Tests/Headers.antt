-- ===== src/Tests/Headers.antt =====
-- A chain of two blocks.
use bindex_rs.Common.{◌+◌, ◌<◌, ◌≡◌, refl, ◌↔◌, some, [], ◌∷◌, ◌++◌, arith}
use bindex_rs.Common.{replicate}
use bindex_rs.Common.{ok, panic}
use bindex_rs.Common.Bytes.{bytes_eq}
use bindex_rs.Index.Header.{IndexedHeader}
use bindex_rs.Headers.{
  Headers, all_zeros, new, add, pop, tip, tip_hash, header_at_height, Location, find_by_txnum,
}
use bindex_rs.Headers.Linked.{IsChain, new_iff, add-IsChain}
use bindex_rs.Headers.Find.{Ascending, first_txnum, find_by_txnum_inside, find_by_txnum_outside}

abbrev pub row0 : IndexedHeader
row0 = record { height = 0; next_txnum = 1; hash = replicate 32 1; prev_blockhash = replicate 32 0 }

abbrev pub row1 : IndexedHeader
row1 = record { height = 1; next_txnum = 4; hash = replicate 32 2; prev_blockhash = replicate 32 1 }

abbrev pub one_block : Headers
one_block = record { rows = row0 ∷ [] }

abbrev pub two_blocks : Headers
two_blocks = record { rows = row0 ∷ row1 ∷ [] }

pub one_block-IsChain : IsChain one_block
unfolding all_zeros
one_block-IsChain = record { linked = (refl, refl, tt) }

pub two_blocks-IsChain : IsChain two_blocks
unfolding all_zeros
two_blocks-IsChain = record { linked = (refl, refl, (refl, refl, tt)) }

new_iff_example :
    ((new (row0 ∷ row1 ∷ []) ≡ ok two_blocks) ↔ IsChain two_blocks)
    × ((new (row0 ∷ row1 ∷ []) ≡ panic) ↔ (¬ IsChain two_blocks))
new_iff_example = new_iff (row0 ∷ row1 ∷ [])

added : add one_block row1 ≡ ok two_blocks
unfolding add tip_hash bytes_eq all_zeros
added = refl

add-IsChain_example :
    IsChain two_blocks
    × (two_blocks.rows ≡ one_block.rows ++ row1 ∷ [])
    × (pop two_blocks ≡ (some row1, one_block))
add-IsChain_example = add-IsChain one_block two_blocks row1 one_block-IsChain added

ascending : Ascending 0 two_blocks.rows
ascending = (omega arith, (omega arith, tt))

find_by_txnum_inside_example :
    (loc : Location) × (find_by_txnum two_blocks 2 ≡ ok loc)
    × (header_at_height two_blocks loc.block_height ≡ some loc.indexed_header)
    × (first_txnum 0 two_blocks.rows loc.block_height + loc.block_offset ≡ 2)
    × (2 < loc.indexed_header.next_txnum)
find_by_txnum_inside_example =
    find_by_txnum_inside two_blocks 2 row1 ascending (omega arith) (unfold tip in refl)
      (omega arith)

find_by_txnum_outside_example : find_by_txnum two_blocks 4 ≡ panic
find_by_txnum_outside_example =
    find_by_txnum_outside two_blocks 4 row1 ascending (omega arith) (unfold tip in refl)
      (omega arith)
