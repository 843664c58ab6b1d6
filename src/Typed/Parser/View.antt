-- ===== src/Typed/Parser/View.antt =====
-- The bytes that are still to be read, through the offset and the compaction of the buffer.
use vsm_field_workstation.Prelude.{
  ℕ, zero, suc, ◌+◌, ◌≤◌, min, ◌≡◌, refl, sym, ap, ◌∙◌, Bool, false, List, [], ◌∷◌, ◌++◌, arith,
  length, drop, length-drop, drop-drop, drop-append_le, leb,
}
use vsm_field_workstation.Typed.Parser.{
  Window, view, buffered_bytes, compact_buffer_if_needed, append_chunk, drop_buffered_bytes,
}

pub buffered-length : (w : Window) → buffered_bytes w ≡ length (view w)
unfolding buffered_bytes
buffered-length w = sym (length-drop w.buffer_offset w.buffer)

drop_all : (n : ℕ) (xs : List ℕ) → length xs ≤ n → drop n xs ≡ []
drop_all zero [] h = refl
drop_all zero (x ∷ xs) h = absurd (omega arith)
drop_all (suc n) [] h = refl
drop_all (suc n) (x ∷ xs) h = drop_all n xs (omega arith)

pub view-compact : (force : Bool) (w : Window) → view (compact_buffer_if_needed force w) ≡ view w
unfolding compact_buffer_if_needed
view-compact force w = ground (arith, drop_all w.buffer_offset w.buffer)

drop-min : (n : ℕ) (xs : List ℕ) → drop (min n (length xs)) xs ≡ drop n xs
drop-min zero xs = ap (λ (k : ℕ). drop k xs) {x = min 0 (length xs)} {y = 0} (omega arith)
drop-min (suc n) [] = let e : min (suc n) 0 ≡ 0 = omega arith in rw e
drop-min (suc n) (x ∷ xs) =
    let e : min (suc n) (suc (length xs)) ≡ suc (min n (length xs)) = omega arith in
    rw e (drop-min n xs)

drop_buffered_bytes-suc :
    (n : ℕ) (w : Window)
    → drop_buffered_bytes (suc n) w
      ≡ compact_buffer_if_needed false
          (record w { buffer_offset = w.buffer_offset + min (suc n) (buffered_bytes w) })
unfolding drop_buffered_bytes
drop_buffered_bytes-suc n w = let e : leb (suc n) 0 ≡ false = ground arith in rw e

pub view-drop_buffered_bytes :
    (n : ℕ) (w : Window) → view (drop_buffered_bytes n w) ≡ drop n (view w)
view-drop_buffered_bytes zero w = unfold drop_buffered_bytes in refl
view-drop_buffered_bytes (suc n) w =
    let m : ℕ = min (suc n) (buffered_bytes w) in
    ap (λ (u : Window). view u) (drop_buffered_bytes-suc n w)
    ∙ view-compact false (record w { buffer_offset = w.buffer_offset + m })
    ∙ sym (drop-drop m w.buffer_offset w.buffer)
    ∙ ap (λ (k : ℕ). drop (min (suc n) k) (view w)) (buffered-length w)
    ∙ drop-min (suc n) (view w)

-- Whatever the window, and whether or not the buffer is compacted on the way, the bytes to be read
-- after a chunk arrives are those that were to be read before, and then the chunk.
pub view-append_chunk :
    (chunk : List ℕ) (w : Window) → view (append_chunk chunk w) ≡ view w ++ chunk
unfolding append_chunk compact_buffer_if_needed
view-append_chunk chunk w =
    ground (arith, drop_all w.buffer_offset w.buffer, drop-append_le w.buffer chunk w.buffer_offset)
