-- ===== src/Memory/FrameAllocator/Tests.antt =====
-- The theorems on the frame allocator at a region of four frames behind one frame of the page list, and
-- runs that show what `merge_buddies` does when such a region has neighbours or an odd start.
use locos.Prelude.{
  ◌≡◌, refl, arith, some, none, Option, ◌>>=◌, [], ◌∷◌, replicate, ◌==◌, if◌then◌else◌,
}
use locos.Memory.PageAllocator.{level_loop}
use locos.Memory.DoubleFreeList.{Nodes, cleared, push, pop, pop_node, remove, contains}
use locos.Memory.FrameAllocator.{
  Frames, new, push_block, get_free_block, merge_buddies, take_or_split, split_level, push_buddy,
  block_size, allocate_contiguous_frames, deallocate_contiguous_frames, get_level_from_size,
  frame_of_node, node_of_frame,
}
use locos.Memory.FrameAllocator.Push.{Returned}
use locos.Memory.FrameAllocator.Alloc.{Gained, IsDry, get_free_block-Gained}
use locos.Memory.FrameAllocator.Free.{merge_buddies-Returned}
use locos.Memory.FrameAllocator.Start.{new-Returned, unfilled, unfilled-IsFrames}

abbrev blank : Nodes
blank a = cleared

-- Four frames from the second frame of the region on.
abbrev four_frames : Frames
four_frames = record {
  allocator = record {
    free_lists =
        (record { next = some 0x10020; len = 1 }) ∷ replicate 2 (record { next = none; len = 0 });
    levels = 3;
    virt_start = 0x11000;
    virt_end = 0x15000;
    page_list_start = 0x10000;
  };
  nodes = λ a.
      if a == 0x10020 then record { next = none; prev = none; level_size = some 4 } else cleared;
}

new_four : new 3 3 0x11000 0x15000 0x10000 blank ≡ some four_frames
unfolding new push_block push
new_four = refl

entered :
    Returned 2 0x10020
      (unfilled 3 2 0x11000 0x10000 blank)
      (replicate 3 [])
      0
      0x10020
      (some four_frames)
entered =
    let made =
      new-Returned 3 2 0x11000 0x10000 blank (omega arith) (omega arith) (omega arith) (omega arith)
        (omega arith) (λ a. refl) (omega arith) refl in
    rw new_four at made

get_free_block-Gained_example :
    Gained 2 0x10020 (IsDry 3 (entered.0)) four_frames (entered.0) 2 (get_free_block four_frames 2)
get_free_block-Gained_example = get_free_block-Gained 2 (entered.1) (omega arith)

-- An allocator with nothing free is given two of its frames.
abbrev none_free : Frames
none_free = unfilled 3 2 0x11000 0x10000 blank

merge_buddies-Returned_example :
    Returned 2 0x10020 none_free (replicate 3 []) 1 0x10060 (merge_buddies 1 none_free 0x10060)
merge_buddies-Returned_example =
    merge_buddies-Returned 1 0x10060
      (unfilled-IsFrames 3 2 0x11000 0x10000 blank (omega arith) (omega arith) (omega arith)
        (omega arith) (omega arith) (λ a. refl))
      (omega arith, omega arith, omega arith) (λ a. ground arith)

abbrev take_frame : Frames → Option Frames
take_frame s = do (s', page) ← allocate_contiguous_frames s 1; some s'

-- Four frames are taken one by one and all given back: the pairs of the merge, 2 with 3, are not those
-- of the split, 1 with 2 and 3 with 4, and the four frames cannot be allocated together again.
frames_stay_apart :
    (do
      s₁ ← take_frame four_frames
      s₂ ← take_frame s₁
      s₃ ← take_frame s₂
      s₄ ← take_frame s₃
      s₅ ← deallocate_contiguous_frames s₄ 0x11000 1
      s₆ ← deallocate_contiguous_frames s₅ 0x12000 1
      s₇ ← deallocate_contiguous_frames s₆ 0x13000 1
      s₈ ← deallocate_contiguous_frames s₇ 0x14000 1
      (s₉, page) ← allocate_contiguous_frames s₈ 4
      some page)
    ≡ some none
unfolding allocate_contiguous_frames deallocate_contiguous_frames get_level_from_size level_loop
    get_free_block take_or_split split_level push_buddy block_size push_block merge_buddies
    frame_of_node node_of_frame push pop pop_node remove contains
frames_stay_apart = refl

-- A second allocator of the same page list, on the next four frames.
next_four : Nodes → Option Frames
next_four nodes = new 3 3 0x15000 0x19000 0x10000 nodes

-- With the last frame of the first allocator in use and the first frame of the second one free, the
-- return of the former takes the latter from a list of the wrong allocator, whose counter panics.
neighbour_is_removed :
    (do
      a₁ ← take_frame four_frames
      a₂ ← take_frame a₁
      a₃ ← take_frame a₂
      a₄ ← take_frame a₃
      b ← next_four a₄.nodes
      b₁ ← take_frame b
      b₂ ← take_frame b₁
      b₃ ← deallocate_contiguous_frames b₂ 0x15000 1
      deallocate_contiguous_frames (record a₄ { nodes = b₃.nodes }) 0x14000 1)
    ≡ none
unfolding next_four new allocate_contiguous_frames deallocate_contiguous_frames get_level_from_size
    level_loop get_free_block take_or_split split_level push_buddy block_size push_block
    merge_buddies frame_of_node node_of_frame push pop pop_node remove contains
neighbour_is_removed = refl
