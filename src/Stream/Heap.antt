-- ===== src/Stream/Heap.antt =====
-- `BinaryHeap<RangeBuf>` with the order of src/stream.rs, least offset first: the list of its
-- chunks as `pop` returns them. Of two with the same offset std leaves open which comes first.
use dtp.Base.{List, [], ◌∷◌, leb, if◌then◌else◌}
use dtp.Stream.RangeBuf.{RangeBuf}

unfoldable pub heap_push : RangeBuf → List RangeBuf → List RangeBuf
heap_push b [] = b ∷ []
heap_push b (c ∷ h) = if leb b.off c.off then b ∷ c ∷ h else c ∷ heap_push b h
