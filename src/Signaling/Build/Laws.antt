-- ===== src/Signaling/Build/Laws.antt =====
-- `build_signal_json` of src/p2p/src/p2p_signaling.c: whole texts, and texts too long for the buffer.
use native.Mathlib.Nat.{zero-add}
use libp2pchannel.Prelude.{
  ℕ, zero, suc, ◌+◌, ◌-◌, ◌<◌, ◌≤◌, ◌≡◌, ◌∙◌, refl, ap, sym, true, false, List, [], ◌∷◌, ◌++◌,
  append_assoc, append-nil, arith, ltb, ◌||◌, length, length-append, take,
}
use libp2pchannel.Signaling.Build.{
  Printed, emit, emit_all, start, closing, Signal, signal_pieces, build_signal_json,
}

unfoldable pub concat : List (List ℕ) → List ℕ
concat [] = []
concat (p ∷ ps) = p ++ concat ps

take-all : (n : ℕ) (xs : List ℕ) → length xs ≤ n → take n xs ≡ xs
take-all zero [] h = refl
take-all (suc n) [] h = refl
take-all zero (x ∷ xs) h = absurd (omega arith)
take-all (suc n) (x ∷ xs) h = ap (λ t. x ∷ t) (take-all n xs (omega arith))

off-emit_all :
    (size : ℕ) (ps : List (List ℕ)) (b : Printed)
    → (emit_all size ps b).off ≡ b.off + length (concat ps)
unfolding emit_all emit concat
off-emit_all size [] b = omega arith
off-emit_all size (p ∷ ps) b =
    ground (arith, off-emit_all size ps (emit size p b), length-append p (concat ps))

emit_all-whole :
    (size : ℕ) (ps : List (List ℕ)) (b : Printed)
    → (emit_all size ps b).off < size
    → b.outside ≡ false
    → ((emit_all size ps b).bytes ≡ b.bytes ++ concat ps) × ((emit_all size ps b).outside ≡ false)
unfolding emit_all emit concat
emit_all-whole size [] b h o = (sym (append-nil b.bytes), o)
emit_all-whole size (p ∷ ps) b h o = ground (
  arith,
  off-emit_all size ps (emit size p b),
  emit_all-whole size ps (emit size p b),
  take-all (size - b.off - 1) p,
  append_assoc b.bytes p (concat ps),
)

emit_all-outside :
    (size : ℕ) (ps : List (List ℕ)) (last : List ℕ) (b : Printed)
    → (emit_all size (ps ++ (last ∷ [])) b).outside
      ≡ (b.outside || ltb size (b.off + length (concat ps)))
unfolding emit_all emit concat
emit_all-outside size [] last b = ground arith
emit_all-outside size (p ∷ ps) last b =
    ground (arith, emit_all-outside size ps last (emit size p b), length-append p (concat ps))

-- When `build_signal_json` reports success, the buffer holds all pieces, the closing brace included, and
-- nothing was written behind it.
pub build_signal_json-whole :
    (s : Signal) (size : ℕ)
    → (build_signal_json s size).1 ≡ true
    → let b = (build_signal_json s size).0 in
      (b.bytes ≡ concat (signal_pieces s ++ closing))
      × (b.outside ≡ false)
      × (length b.bytes < size)
unfolding build_signal_json
build_signal_json-whole s size h = ground (
  arith,
  emit_all-whole size (signal_pieces s ++ closing) start,
  off-emit_all size (signal_pieces s ++ closing) start,
)

-- `build_signal_json` writes behind its buffer just when the text without the closing brace is longer
-- than the buffer.
pub build_signal_json-outside :
    (s : Signal) (size : ℕ)
    → (build_signal_json s size).0.outside ≡ ltb size (length (concat (signal_pieces s)))
unfolding build_signal_json
build_signal_json-outside s size =
    emit_all-outside size (signal_pieces s) (b'}' ∷ []) start
    ∙ ap (ltb size) (zero-add (length (concat (signal_pieces s))))
