-- ===== src/Device/Touch/Flush.antt =====
-- What becomes of the writers that wait.
use mathlib.Core.List.{append_assoc, append-nil}
use mathlib.Core.Path.{subst}
use mercury_farm.Base.{
  ◌≡◌, refl, sym, ap, ◌∙◌, true, false, not, ◌&&◌, ◌||◌, Option, some, List, [], ◌∷◌, ◌++◌, arith,
  if-cases, is_some,
}
use mercury_farm.Device.Touch.{released, start_with}
use mercury_farm.Device.Touch.State.{
  Running, stopped, starting, started, stopping, Banner, Writer, Consumer, perform, queue_at,
  needs_banner, flush, process_write_queue,
}
use mercury_farm.Device.Touch.Unwritten.{
  writers, have_banners, is_started, no_writers-nil, can_write, Written, Keeps-Written,
  ensure_state-Keeps,
}

abbrev with_banner : Option Banner → List Writer → List (Writer × Option Banner)
with_banner b [] = []
with_banner b (w ∷ ws) = (w, b) ∷ with_banner b ws

perform-lem :
    (w : Writer) (s : Consumer)
    → s.socket && is_some s.banner ≡ true
    → perform w s ≡ record s { written = s.written ++ (w, s.banner) ∷ [] }
unfolding perform
perform-lem w s h =
    if-cases (λ (t : Consumer). t ≡ record s { written = s.written ++ (w, s.banner) ∷ [] })
      (s.socket && (not (needs_banner w) || is_some s.banner)) (λ _. refl) (λ e. ground (arith, h))

flush-lem :
    (ws : List Writer) (s : Consumer)
    → s.socket && is_some s.banner ≡ true
    → flush ws s ≡ record s { written = s.written ++ with_banner s.banner ws }
unfolding flush
flush-lem [] s h =
    ap (λ (l : List (Writer × Option Banner)). record s { written = l })
      (sym (append-nil s.written))
flush-lem (w ∷ ws) s h =
    ap (flush ws) (perform-lem w s h)
    ∙ (flush-lem ws (record s { written = s.written ++ (w, s.banner) ∷ [] }) h
        ∙ ap (λ (l : List (Writer × Option Banner)). record s { written = l })
            (append_assoc s.written ((w, s.banner) ∷ []) (with_banner s.banner ws)))

writers-append : (a b : List (Writer × Option Banner)) → writers (a ++ b) ≡ writers a ++ writers b
writers-append [] b = refl
writers-append (x ∷ a) b = ap (λ (l : List Writer). x.0 ∷ l) (writers-append a b)

have_banners-append :
    (a b : List (Writer × Option Banner))
    → have_banners a ≡ true
    → have_banners b ≡ true
    → have_banners (a ++ b) ≡ true
have_banners-append [] b h k = k
have_banners-append (x ∷ a) b h k = ground (arith, have_banners-append a b)

writers-with_banner : (b : Option Banner) (ws : List Writer) → writers (with_banner b ws) ≡ ws
writers-with_banner b [] = refl
writers-with_banner b (w ∷ ws) = ap (λ (l : List Writer). w ∷ l) (writers-with_banner b ws)

have_banners-with_banner :
    (b : Banner) (ws : List Writer) → have_banners (with_banner (some b) ws) ≡ true
have_banners-with_banner b [] = refl
have_banners-with_banner b (w ∷ ws) = have_banners-with_banner b ws

process_write_queue-Written :
    (touched : List Writer) (b : Banner) (s : Consumer)
    → s.socket ≡ true
    → s.banner ≡ some b
    → Written touched s
    → Written touched (process_write_queue s)
unfolding process_write_queue
process_write_queue-Written touched b s k e w =
    subst (Written touched)
      (sym (flush-lem s.write_queue (record s { write_queue = [] }) (ground (arith, k, e))))
      (record {
        of_ready = ground (arith, k, e);
        of_order =
            append-nil (writers (s.written ++ with_banner s.banner s.write_queue))
            ∙ (writers-append s.written (with_banner s.banner s.write_queue)
                ∙ (ap (λ (l : List Writer). writers s.written ++ l)
                      (writers-with_banner s.banner s.write_queue)
                    ∙ w.of_order));
        of_banners =
            have_banners-append s.written (with_banner s.banner s.write_queue) w.of_banners (
              subst (λ (c : Option Banner). have_banners (with_banner c s.write_queue) ≡ true)
                (sym e) (have_banners-with_banner b s.write_queue));
      })

process_write_queue-can_write :
    (b : Banner) (s : Consumer)
    → s.socket ≡ true
    → s.banner ≡ some b
    → can_write (process_write_queue s) ≡ true
unfolding process_write_queue
process_write_queue-can_write b s k e =
    ap can_write (flush-lem s.write_queue (record s { write_queue = [] }) (ground (arith, k, e)))
    ∙ ground (arith, k, e)

pub start_with-Written :
    (touched : List Writer) (b : Banner) (s : Consumer)
    → Written touched s
    → Written touched (start_with b s)
unfolding start_with released
start_with-Written touched b s w =
    if-cases (Written touched) s.socket
      (λ k.
        let t : Consumer = record s { banner = some b } in
        let v = process_write_queue-Written touched b t k refl (record {
          of_ready = ground (arith, w.of_ready);
          of_order = w.of_order;
          of_banners = w.of_banners;
        }) in
        let u : Consumer = record (process_write_queue t) { running = started } in
        Keeps-Written touched u _
          (ensure_state-Keeps u _
            (record { of_written = refl; of_queue = refl; of_ready = λ r. r }))
          (record {
            of_ready = process_write_queue-can_write b t k refl;
            of_order = v.of_order;
            of_banners = v.of_banners;
          }))
      (λ _. record {
        of_ready = ground (arith, w.of_ready);
        of_order = w.of_order;
        of_banners = w.of_banners;
      })

later-Written :
    (touched : List Writer) (w : Writer) (s : Consumer)
    → is_started s.running ≡ false
    → Written touched s
    → Written (touched ++ w ∷ []) (record s { write_queue = s.write_queue ++ w ∷ [] })
later-Written touched w s n i = record {
  of_ready = ground (arith, n);
  of_order =
      sym (append_assoc (writers s.written) s.write_queue (w ∷ []))
      ∙ ap (λ (l : List Writer). l ++ w ∷ []) i.of_order;
  of_banners = i.of_banners;
}

pub queue_at-Written :
    (r : Running) (touched : List Writer) (w : Writer) (s : Consumer)
    → s.running ≡ r
    → Written touched s
    → Written (touched ++ w ∷ []) (queue_at r w s)
unfolding queue_at
queue_at-Written started touched w s e i =
    let ready : s.socket && is_some s.banner ≡ true = ground (arith, e, i.of_ready) in
    let none_left : s.write_queue ≡ [] =
      no_writers-nil s.write_queue (ground (arith, e, i.of_ready)) in
    subst (Written (touched ++ w ∷ [])) (sym (perform-lem w s ready)) (record {
      of_ready = i.of_ready;
      of_order =
          ap (λ (l : List Writer). l ++ s.write_queue)
            (writers-append s.written ((w, s.banner) ∷ []))
          ∙ (append_assoc (writers s.written) (w ∷ []) s.write_queue
              ∙ (ap (λ (l : List Writer). writers s.written ++ w ∷ l) none_left
                  ∙ ap (λ (l : List Writer). l ++ w ∷ [])
                      (sym (append-nil (writers s.written))
                        ∙ (ap (λ (l : List Writer). writers s.written ++ l) (sym none_left)
                            ∙ i.of_order))));
      of_banners =
          have_banners-append s.written ((w, s.banner) ∷ []) i.of_banners (ground (arith, ready));
    })
queue_at-Written stopped touched w s e i = later-Written touched w s (ap is_started e) i
queue_at-Written starting touched w s e i = later-Written touched w s (ap is_started e) i
queue_at-Written stopping touched w s e i = later-Written touched w s (ap is_started e) i
