-- ===== src/Session/Reassembly/Laws.antt =====
-- What the reassembly of src/p2p/src/p2pav.c makes of sequences of fragments.
use libp2pchannel.Prelude.{
  ℕ, ◌+◌, ◌^◌, ◌≤◌, ◌<◌, ◌≡◌, refl, sym, ap, ap₂, subst, ◌∙◌, Bool, true, false, not, ◌||◌, none,
  some, List, [], ◌∷◌, ◌++◌, append_assoc, append-nil, arith, ltb, ◌==◌, ==_iff, length, take, drop,
  length-append, length-take, length-drop, take-length,
}
use native.Mathlib.Nat.{zero-add}
use libp2pchannel.Adapter.{FrameHeader}
use libp2pchannel.Session.Reassembly.{Reasm, Frame, write_at, add_fragment}

-- The memory has its size, and a frame that is being collected fits it and misses some bytes.
pub record IsValid (rb : Reasm) : Type 0 where
  pub memory : length rb.bytes ≡ rb.max_size
  pub fits : rb.active ≡ true → rb.total_len ≤ rb.max_size
  pub small : rb.max_size < 2 ^ 32

length-write_at :
    (bytes : List ℕ) (offset : ℕ) (src : List ℕ) (n : ℕ)
    → n ≤ length src
    → offset + n ≤ length bytes
    → length (write_at bytes offset src n) ≡ length bytes
length-write_at bytes offset src n h k = omega (
  arith,
  length-append (take offset bytes) (take n src ++ drop (offset + n) bytes),
  length-append (take n src) (drop (offset + n) bytes),
  length-take offset bytes,
  length-take n src,
  length-drop (offset + n) bytes,
)

-- A fragment whose end does not wrap and whose payload is as long as it says never makes the
-- reassembly write outside its memory, whatever state the buffer is in: the buffer stays valid.
pub add_fragment-IsValid :
    (allocated : Bool) (hdr : FrameHeader) (payload : List ℕ) {rb : Reasm}
    → IsValid rb
    → hdr.frag_offset + hdr.frag_len < 2 ^ 32
    → hdr.frag_len ≤ length payload
    → IsValid (add_fragment allocated hdr payload rb).0
unfolding add_fragment
add_fragment-IsValid allocated hdr payload {rb} v h k =
    ground (arith, length-write_at rb.bytes hdr.frag_offset payload hdr.frag_len)

take-length-append : (xs ys : List ℕ) → take (length xs) (xs ++ ys) ≡ xs
take-length-append [] ys = refl
take-length-append (x ∷ xs) ys = ap (λ t. x ∷ t) (take-length-append xs ys)

-- What has been written up to the end of a fragment.
take-write_at :
    (bytes done chunk : List ℕ)
    → take (length done) bytes ≡ done
    → take (length done + length chunk) (write_at bytes (length done) chunk (length chunk))
      ≡ done ++ chunk
take-write_at bytes done chunk e =
    let rest = drop (length done + length chunk) bytes in
    ap (λ n. take n (write_at bytes (length done) chunk (length chunk)))
      (sym (length-append done chunk))
    ∙ ap (take (length (done ++ chunk))) (
        ap₂ (λ (x y : List ℕ). x ++ (y ++ rest)) e (take-length chunk)
        ∙ sym (append_assoc done chunk rest))
    ∙ take-length-append (done ++ chunk) rest

-- The header of a fragment of the frame `f` that starts at `offset`.
abbrev pub fragment_header : Frame → ℕ → ℕ → List ℕ → FrameHeader
fragment_header f seq offset chunk = record {
  type = f.type;
  flags = f.flags;
  seq = seq;
  timestamp_us = f.timestamp_us;
  total_len = length f.bytes;
  frag_offset = offset;
  frag_len = length chunk;
}

-- The fragments of a frame, given one after the other.
pub feed : Frame → ℕ → ℕ → List (List ℕ) → Reasm → Reasm × List Frame
feed f seq offset [] rb = (rb, [])
feed f seq offset (chunk ∷ chunks) rb =
    let (rb', out) = add_fragment true (fragment_header f seq offset chunk) chunk rb in
    let (rb'', frames) = feed f seq (offset + length chunk) chunks rb' in
    (rb'', elim out [ none ↦ frames | some g ↦ g ∷ frames ])

unfoldable pub concat : List (List ℕ) → List ℕ
concat [] = []
concat (c ∷ cs) = c ++ concat cs

abbrev pub AllNonEmpty : List (List ℕ) → Type 0
AllNonEmpty [] = Unit
AllNonEmpty (c ∷ cs) = (0 < length c) × AllNonEmpty cs

-- The buffer holds the bytes `done` of the frame.
record Collects (f : Frame) (seq : ℕ) (done : List ℕ) (rb : Reasm) : Type 0 where
  is_active : rb.active ≡ true
  same_type : rb.type ≡ f.type
  same_flags : rb.flags ≡ f.flags
  same_seq : rb.seq ≡ seq
  same_time : rb.timestamp_us ≡ f.timestamp_us
  same_len : rb.total_len ≡ length f.bytes
  counted : rb.received ≡ length done
  written : take (length done) rb.bytes ≡ done

-- A buffer that takes a new frame: it is idle, or holds an older frame or one of another type.
abbrev pub is_ready : Frame → ℕ → Reasm → Bool
is_ready f seq rb = not rb.active || ltb rb.seq seq || not (rb.type == f.type)

Collects-first :
    (f : Frame) (seq : ℕ) (chunk : List ℕ) {rb : Reasm}
    → IsValid rb
    → is_ready f seq rb ≡ true
    → length f.bytes ≤ rb.max_size
    → 0 < length chunk
    → length chunk < length f.bytes
    → let (rb', out) = add_fragment true (fragment_header f seq 0 chunk) chunk rb in
      Collects f seq chunk rb' × IsValid rb' × (rb'.max_size ≡ rb.max_size) × (out ≡ none)
unfolding add_fragment
Collects-first f seq chunk {rb} v r fits some_bytes more = ground (
  arith,
  take-write_at rb.bytes [] chunk,
  length-write_at rb.bytes 0 chunk (length chunk),
  ==_iff rb.seq seq,
  ==_iff rb.type f.type,
)

Collects-more :
    (f : Frame) (seq : ℕ) (done chunk : List ℕ) {rb : Reasm}
    → IsValid rb
    → Collects f seq done rb
    → length done + length chunk < length f.bytes
    → 0 < length done
    → let (rb', out) = add_fragment true (fragment_header f seq (length done) chunk) chunk rb in
      Collects f seq (done ++ chunk) rb' × IsValid rb' × (rb'.max_size ≡ rb.max_size) × (out ≡ none)
unfolding add_fragment
Collects-more f seq done chunk {rb} v c more some_bytes = ground (
  arith,
  take-write_at rb.bytes done chunk c.written,
  length-append done chunk,
  v.fits c.is_active,
  length-write_at rb.bytes (length done) chunk (length chunk),
)

Collects-last :
    (f : Frame) (seq : ℕ) (done chunk : List ℕ) {rb : Reasm}
    → IsValid rb
    → Collects f seq done rb
    → length done + length chunk ≡ length f.bytes
    → 0 < length done
    → 0 < length chunk
    → let (rb', out) = add_fragment true (fragment_header f seq (length done) chunk) chunk rb in
      (rb'.active ≡ false) × IsValid rb' × (out ≡ some (record f { bytes = done ++ chunk }))
unfolding add_fragment
Collects-last f seq done chunk {rb} v c all some_bytes more = ground (
  arith,
  ap (λ n. take n (write_at rb.bytes (length done) chunk (length chunk))) (c.same_len ∙ sym all),
  take-write_at rb.bytes done chunk c.written,
  v.fits c.is_active,
  length-write_at rb.bytes (length done) chunk (length chunk),
)

-- A frame in one fragment.
pub add_whole :
    (f : Frame) (seq : ℕ) {rb : Reasm}
    → IsValid rb
    → is_ready f seq rb ≡ true
    → length f.bytes ≤ rb.max_size
    → 0 < length f.bytes
    → let (rb', out) = add_fragment true (fragment_header f seq 0 f.bytes) f.bytes rb in
      (rb'.active ≡ false) × IsValid rb' × (out ≡ some f)
unfolding add_fragment
add_whole f seq {rb} v r fits some_bytes = ground (
  arith,
  take-write_at rb.bytes [] f.bytes refl,
  length-write_at rb.bytes 0 f.bytes (length f.bytes),
)

-- The frame has come out once, and the buffer is idle and valid.
abbrev pub Complete : Frame → Reasm × List Frame → Type 0
Complete f (rb, frames) = (frames ≡ f ∷ []) × (rb.active ≡ false) × IsValid rb

feed-none :
    (f : Frame) (seq offset : ℕ) (chunk : List ℕ) (chunks : List (List ℕ)) (rb : Reasm)
    → let (rb', out) = add_fragment true (fragment_header f seq offset chunk) chunk rb in
      out ≡ none
      → feed f seq offset (chunk ∷ chunks) rb ≡ feed f seq (offset + length chunk) chunks rb'
unfolding feed
feed-none f seq offset chunk chunks rb e = rw e

feed-one :
    (f : Frame) (seq offset : ℕ) (chunk : List ℕ) (rb : Reasm)
    → let (rb', out) = add_fragment true (fragment_header f seq offset chunk) chunk rb in
      out ≡ some f → feed f seq offset (chunk ∷ []) rb ≡ (rb', f ∷ [])
unfolding feed
feed-one f seq offset chunk rb e = rw e

same_frame : (f : Frame) (bytes : List ℕ) → f.bytes ≡ bytes → record f { bytes = bytes } ≡ f
same_frame f bytes e = rw (← e)

feed-rest :
    (f : Frame) (seq : ℕ) (done : List ℕ) (chunks : List (List ℕ)) {rb : Reasm}
    → IsValid rb
    → Collects f seq done rb
    → AllNonEmpty chunks
    → 0 < length done
    → 0 < length (concat chunks)
    → f.bytes ≡ done ++ concat chunks
    → Complete f (feed f seq (length done) chunks rb)
unfolding concat
feed-rest f seq done [] {rb} v c ne some_bytes more all = absurd (omega arith)
feed-rest f seq done (chunk ∷ []) {rb} v c ne some_bytes more all =
    let whole : f.bytes ≡ done ++ chunk = all ∙ ap (λ t. done ++ t) (append-nil chunk) in
    let (idle, valid, out) =
      Collects-last f seq done chunk v c (sym (length-append done chunk) ∙ ap length (sym whole))
        some_bytes ne.0 in
    subst (Complete f)
      (sym (
        feed-one f seq (length done) chunk rb (out ∙ ap some (same_frame f (done ++ chunk) whole))))
      (refl, idle, valid)
feed-rest f seq done (chunk ∷ next ∷ chunks) {rb} v c ne some_bytes more all =
    let rest = next ++ concat chunks in
    let longer : 0 < length rest = omega (arith, length-append next (concat chunks), ne.1.0) in
    let (c', v', m, out) =
      Collects-more f seq done chunk v c
        (omega (arith, ap length all, length-append done (chunk ++ rest), length-append chunk rest))
        some_bytes in
    subst (Complete f)
      (sym (
        feed-none f seq (length done) chunk (next ∷ chunks) rb out
        ∙ ap
            (λ n.
              feed f seq n (next ∷ chunks)
                (add_fragment true (fragment_header f seq (length done) chunk) chunk rb).0)
            (sym (length-append done chunk))))
      (feed-rest f seq (done ++ chunk) (next ∷ chunks) v' c' ne.1
        (omega (arith, length-append done chunk)) longer (all ∙ sym (append_assoc done chunk rest)))

-- A frame of at least one byte that is cut into fragments of at least one byte each comes out once and
-- whole when its fragments arrive in order at a valid buffer that is ready for it and large enough;
-- then the buffer is idle and valid. Memory for the copy is there.
pub feed-frame :
    (f : Frame) (seq : ℕ) (chunks : List (List ℕ)) {rb : Reasm}
    → IsValid rb
    → is_ready f seq rb ≡ true
    → AllNonEmpty chunks
    → f.bytes ≡ concat chunks
    → 0 < length f.bytes
    → length f.bytes ≤ rb.max_size
    → Complete f (feed f seq 0 chunks rb)
unfolding concat
feed-frame f seq [] {rb} v r ne all some_bytes fits = absurd (omega (arith, ap length all))
feed-frame f seq (chunk ∷ []) {rb} v r ne all some_bytes fits =
    let whole : f.bytes ≡ chunk = all ∙ append-nil chunk in
    let (idle, valid, out) = add_whole f seq v r fits some_bytes in
    subst (λ (c : List ℕ). Complete f (feed f seq 0 (c ∷ []) rb)) whole
      (subst (Complete f) (sym (feed-one f seq 0 f.bytes rb out)) (refl, idle, valid))
feed-frame f seq (chunk ∷ next ∷ chunks) {rb} v r ne all some_bytes fits =
    let rest = next ++ concat chunks in
    let longer : 0 < length rest = omega (arith, length-append next (concat chunks), ne.1.0) in
    let (c', v', m, out) =
      Collects-first f seq chunk v r fits ne.0
        (omega (arith, ap length all, length-append chunk rest)) in
    subst (Complete f)
      (sym (
        feed-none f seq 0 chunk (next ∷ chunks) rb out
        ∙ ap
            (λ n.
              feed f seq n (next ∷ chunks)
                (add_fragment true (fragment_header f seq 0 chunk) chunk rb).0)
            (zero-add (length chunk))))
      (feed-rest f seq chunk (next ∷ chunks) v' c' ne.1 ne.0 longer all)
