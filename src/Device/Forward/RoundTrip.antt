-- ===== src/Device/Forward/RoundTrip.antt =====
-- What the writers of lib/units/device/plugins/forward/util write, as the reader gives it back.
use mathlib.Core.Path.{subst}
use mathlib.Core.List.{append-nil, append_assoc}
use mercury_farm.Base.{
  ℕ, suc, ◌≡◌, refl, sym, ap, ◌∙◌, ◌<◌, Bool, true, false, none, some, List, [], ◌∷◌, ◌++◌, map,
  ◌==◌, if◌then◌else◌, if-cases, length, arith,
}
use mercury_farm.Device.Forward.{header, transform_write, Packet, Reader, new, transform_read, run}
use mercury_farm.Device.Forward.Pieces.{
  Piece, packet_of, encode_all, Fits, AtHeader, chunk-pieces, concat,
}
use mercury_farm.Device.Forward.Cuts.{cut, pieces, concat-write, concat-cut, cut-Fits}

-- the bytes that packets bring for a target
abbrev pub received : ℕ → List Packet → List ℕ
received t [] = []
received t ((t', none) ∷ packets) = received t packets
received t ((t', some bytes) ∷ packets) =
    if t' == t then bytes ++ received t packets else received t packets

-- bytes written for a target, those for `t` alone
abbrev pub sent : ℕ → List Piece → List ℕ
sent t [] = []
sent t (w ∷ ws) = if w.0 == t then w.1 ++ sent t ws else sent t ws

received-packet_of : (t : ℕ) (ps : List Piece) → received t (map packet_of ps) ≡ sent t ps
received-packet_of t [] = refl
received-packet_of t ((t', []) ∷ ps) =
    if-cases (λ r. received t (map packet_of ps) ≡ r) (t' == t) (λ _. received-packet_of t ps)
      (λ _. received-packet_of t ps)
received-packet_of t ((t', x ∷ body) ∷ ps) =
    ap (λ r. if t' == t then (x ∷ body) ++ r else r) (received-packet_of t ps)

if-append :
    (b : Bool) (x y z : List ℕ)
    → (if b then x ++ (y ++ z) else y ++ z) ≡ (if b then x ++ y else y) ++ z
if-append true x y z = sym (append_assoc x y z)
if-append false x y z = refl

if-out : (b : Bool) (x y : List ℕ) → (if b then x else []) ++ y ≡ (if b then x ++ y else y)
if-out true x y = refl
if-out false x y = refl

if-more :
    (b : Bool) (x y z : List ℕ)
    → y ≡ (if b then z else [])
    → (if b then x ++ y else y) ≡ (if b then x ++ z else [])
if-more true x y z e = ap (λ r. x ++ r) e
if-more false x y z e = e

sent-append : (t : ℕ) (ps qs : List Piece) → sent t (ps ++ qs) ≡ sent t ps ++ sent t qs
sent-append t [] qs = refl
sent-append t (p ∷ ps) qs =
    ap (λ r. if p.0 == t then p.1 ++ r else r) (sent-append t ps qs)
    ∙ if-append (p.0 == t) p.1 (sent t ps) (sent t qs)

sent-pieces :
    (t t' : ℕ) (bodies : List (List ℕ))
    → sent t (pieces t' bodies) ≡ (if t' == t then concat bodies else [])
sent-pieces t t' [] = if-cases (λ r. [] ≡ r) (t' == t) (λ _. refl) (λ _. refl)
sent-pieces t t' (body ∷ bodies) =
    if-more (t' == t) body (sent t (pieces t' bodies)) (concat bodies) (sent-pieces t t' bodies)

-- what the writers push for some writes, each for its own target, one after another
abbrev pub stream : List Piece → List ℕ
stream [] = []
stream (w ∷ ws) = concat (transform_write w.0 w.1) ++ stream ws

abbrev pub Targets : List Piece → Type 0
Targets [] = Unit
Targets (w ∷ ws) = (w.0 < 65536) × Targets ws

abbrev all_pieces : List Piece → List Piece
all_pieces [] = []
all_pieces (w ∷ ws) = pieces w.0 (cut (suc (length w.1)) w.1) ++ all_pieces ws

encode_all-append : (ps qs : List Piece) → encode_all (ps ++ qs) ≡ encode_all ps ++ encode_all qs
unfolding encode_all
encode_all-append [] qs = refl
encode_all-append (p ∷ ps) qs =
    ap (λ r. (header p.0 (length p.1) ++ p.1) ++ r) (encode_all-append ps qs)
    ∙ sym (append_assoc (header p.0 (length p.1) ++ p.1) (encode_all ps) (encode_all qs))

stream-encode_all : (ws : List Piece) → stream ws ≡ encode_all (all_pieces ws)
unfolding encode_all transform_write
stream-encode_all [] = refl
stream-encode_all (w ∷ ws) =
    let ps = pieces w.0 (cut (suc (length w.1)) w.1) in
    ap (λ r. concat (transform_write w.0 w.1) ++ r) (stream-encode_all ws)
    ∙ ap (λ r. r ++ encode_all (all_pieces ws)) (concat-write w.0 (suc (length w.1)) w.1)
    ∙ sym (encode_all-append ps (all_pieces ws))

Fits-append : (ps qs : List Piece) → Fits ps → Fits qs → Fits (ps ++ qs)
Fits-append [] qs f g = g
Fits-append (p ∷ ps) qs f g = (f.0, f.1, Fits-append ps qs f.2 g)

all_pieces-Fits : (ws : List Piece) → Targets ws → Fits (all_pieces ws)
all_pieces-Fits [] h = tt
all_pieces-Fits (w ∷ ws) h =
    Fits-append (pieces w.0 (cut (suc (length w.1)) w.1)) (all_pieces ws)
      (cut-Fits w.0 (suc (length w.1)) w.1 h.0) (all_pieces-Fits ws h.1)

sent-all_pieces : (t : ℕ) (ws : List Piece) → sent t (all_pieces ws) ≡ sent t ws
sent-all_pieces t [] = refl
sent-all_pieces t (w ∷ ws) =
    sent-append t (pieces w.0 (cut (suc (length w.1)) w.1)) (all_pieces ws)
    ∙ ap (λ r. r ++ sent t (all_pieces ws)) (sent-pieces t w.0 (cut (suc (length w.1)) w.1))
    ∙ ap (λ r. (if w.0 == t then r else []) ++ sent t (all_pieces ws))
        (concat-cut (suc (length w.1)) w.1 (omega arith))
    ∙ ap (λ r. (if w.0 == t then w.1 else []) ++ r) (sent-all_pieces t ws)
    ∙ if-out (w.0 == t) w.1 (sent t ws)

-- over several chunks
abbrev all_chunks : List (List Piece) → List Piece
all_chunks [] = []
all_chunks (ws ∷ wss) = all_pieces ws ++ all_chunks wss

abbrev pub AllTargets : List (List Piece) → Type 0
AllTargets [] = Unit
AllTargets (ws ∷ wss) = Targets ws × AllTargets wss

map-append : (ps qs : List Piece) → map packet_of (ps ++ qs) ≡ map packet_of ps ++ map packet_of qs
map-append [] qs = refl
map-append (p ∷ ps) qs = ap (λ r. packet_of p ∷ r) (map-append ps qs)

run-AtHeader :
    (wss : List (List Piece)) (s : Reader) (es : List Packet)
    → AllTargets wss
    → AtHeader es s
    → AtHeader (es ++ map packet_of (all_chunks wss)) (run (map stream wss) s)
unfolding run
run-AtHeader [] s es h at = subst (λ l. AtHeader l s) (sym (append-nil es)) at
run-AtHeader (ws ∷ wss) s es h at =
    let now = chunk-pieces (all_pieces ws) s es at (all_pieces-Fits ws h.0) in
    subst (λ l. AtHeader l (run (map stream wss) (transform_read (stream ws) s)))
      (append_assoc es (map packet_of (all_pieces ws)) (map packet_of (all_chunks wss))
        ∙ ap (λ r. es ++ r) (sym (map-append (all_pieces ws) (all_chunks wss))))
      (run-AtHeader wss (transform_read (stream ws) s) (es ++ map packet_of (all_pieces ws)) h.1 (
        subst (λ bytes. AtHeader (es ++ map packet_of (all_pieces ws)) (transform_read bytes s))
          (sym (stream-encode_all ws)) now))

sent-all_chunks : (t : ℕ) (wss : List (List Piece)) → sent t (all_chunks wss) ≡ sent t (concat wss)
sent-all_chunks t [] = refl
sent-all_chunks t (ws ∷ wss) =
    sent-append t (all_pieces ws) (all_chunks wss)
    ∙ ap (λ r. r ++ sent t (all_chunks wss)) (sent-all_pieces t ws)
    ∙ ap (λ r. sent t ws ++ r) (sent-all_chunks t wss)
    ∙ sym (sent-append t ws (concat wss))

-- A new reader that is given, in any chunks of whole writes, what writers push for targets below
-- 65536 gives each target exactly the bytes that were written for it, in their order.
pub run-stream :
    (wss : List (List Piece)) (t : ℕ)
    → AllTargets wss
    → received t (run (map stream wss) new).emitted ≡ sent t (concat wss)
unfolding new
run-stream wss t h =
    let at = run-AtHeader wss new [] h (0, 0, 0, 0, 0, refl) in
    ap (λ s. received t s.emitted) at.5
    ∙ received-packet_of t (all_chunks wss)
    ∙ sent-all_chunks t wss
