-- ===== src/Transport/Events/Laws.antt =====
-- What the event reader of src/p2p/src/p2p_tls.c makes of the text of an event.
use libp2pchannel.Prelude.{
  ℕ, suc, ◌+◌, ◌<◌, ◌≡◌, refl, ap, ◌≢◌, Bool, true, not, ◌&&◌, List, [], ◌∷◌, ◌++◌, arith, ◌==◌,
  lt→ltb, ne→==, length,
}
use libp2pchannel.Prelude.Text.{codes, starts_with, snprintf_s_short}
use libp2pchannel.Transport.{Answer, c_str}
use libp2pchannel.Transport.Laws.{Carries, IsLine, nil, cons, tls_read_line-IsLine}
use libp2pchannel.Transport.Events.{
  Event, before, chop, skip_spaces, take_field, ready, has_event, line_room, read_lines,
}

chop-IsLine : {line : List ℕ} → IsLine line → chop (line ++ (10 ∷ [])) ≡ line
unfolding chop
chop-IsLine nil = refl
chop-IsLine (cons {c} {cs} nz nn nr nil) = rw (ne→== c 10 nn, ne→== c 13 nr) refl
chop-IsLine (cons {c} {cs} nz nn nr (cons {c = d} {cs = ds} mz mn mr l)) =
    ap (before c) (chop-IsLine (cons mz mn mr l))

c_str-IsLine : {line : List ℕ} → IsLine line → c_str line ≡ line
unfolding c_str
c_str-IsLine nil = refl
c_str-IsLine (cons {c} {cs} nz nn nr l) = rw (ne→== c 0 nz) (ap (λ t. c ∷ t) (c_str-IsLine l))

-- A test for `IsLine` of a text that is known.
abbrev pub plain : List ℕ → Bool
plain [] = true
plain (c ∷ cs) = not (c == 0) && not (c == 10) && not (c == 13) && plain cs

pub IsLine-append : (p : List ℕ) {line : List ℕ} → plain p ≡ true → IsLine line → IsLine (p ++ line)
IsLine-append [] h l = l
IsLine-append (c ∷ cs) h l =
    cons (ground arith) (ground arith) (ground arith) (IsLine-append cs (ground arith) l)

pub IsLine-plain : (p : List ℕ) → plain p ≡ true → IsLine p
IsLine-plain [] h = nil
IsLine-plain (c ∷ cs) h =
    cons (ground arith) (ground arith) (ground arith) (IsLine-plain cs (ground arith))

-- It does not begin with a space.
abbrev pub Unpadded : List ℕ → Type 0
Unpadded [] = Unit {0}
Unpadded (c ∷ cs) = c ≢ 32

pub skip_spaces-Unpadded : (text : List ℕ) → Unpadded text → skip_spaces (32 ∷ text) ≡ text
unfolding skip_spaces
skip_spaces-Unpadded [] u = refl
skip_spaces-Unpadded (c ∷ cs) u = rw (ne→== c 32 u) refl

-- One round of the loop on a line that is not empty.
pub read_lines-IsLine :
    {rest : List Answer} (fuel et_sz ed_sz : ℕ) (e : Event) (c : ℕ) (cs text : List ℕ)
    (ans : List Answer)
    → IsLine (c ∷ cs)
    → length (c ∷ cs) < line_room
    → Carries rest ((c ∷ cs) ++ (10 ∷ text)) ans
    → (end : List Answer) × (read_lines (suc fuel) et_sz ed_sz e ans
        ≡ read_lines fuel et_sz ed_sz (take_field et_sz ed_sz (c ∷ cs) e) end)
      × Carries rest text end
      × (length end < length ans)
unfolding read_lines
read_lines-IsLine fuel et_sz ed_sz e c cs text ans l h carried =
    let (end, r, t, s) = tls_read_line-IsLine line_room (c ∷ cs) text ans l h carried in
    (end, rw (r, chop-IsLine l, c_str-IsLine l) refl, t, s)

-- The empty line that ends an event.
pub read_lines-end :
    {rest : List Answer} (fuel et_sz ed_sz : ℕ) (e : Event) (text : List ℕ) (ans : List Answer)
    → has_event e ≡ true
    → Carries rest (10 ∷ text) ans
    → (end : List Answer) × (read_lines (suc fuel) et_sz ed_sz e ans ≡ ready e end)
      × Carries rest text end
      × (length end < length ans)
unfolding read_lines chop
read_lines-end fuel et_sz ed_sz e text ans h carried =
    let (end, r, t, s) = tls_read_line-IsLine line_room [] text ans nil (omega arith) carried in
    (end, rw (r, h) refl, t, s)

pub take_field-event :
    (et_sz ed_sz : ℕ) (name : List ℕ) (e : Event)
    → Unpadded name
    → length name < et_sz
    → take_field et_sz ed_sz (codes "event: " ++ name) e ≡ record e { name = name }
unfolding take_field starts_with
take_field-event et_sz ed_sz name e u h =
    rw (skip_spaces-Unpadded name u, snprintf_s_short et_sz name h) refl

pub take_field-data :
    (et_sz ed_sz : ℕ) (val : List ℕ) (e : Event)
    → Unpadded val
    → length e.json + length val < ed_sz
    → take_field et_sz ed_sz (codes "data: " ++ val) e ≡ record e { json = e.json ++ val }
unfolding take_field starts_with
take_field-data et_sz ed_sz val e u h =
    rw (skip_spaces-Unpadded val u, lt→ltb (length e.json + length val) ed_sz h) refl
