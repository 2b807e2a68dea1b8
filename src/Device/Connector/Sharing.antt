-- ===== src/Device/Connector/Sharing.antt =====
-- Starts that overlap, in lib/units/base-device/support/connector.js.
use mathlib.Core.List.{append_assoc, append-nil}
use mercury_farm.Base.{◌+◌, ◌≡◌, sym, ap, ◌∙◌, true, Option, none, some, List, [], ◌∷◌, ◌++◌, map}
use mercury_farm.Base.Text.{String}
use mercury_farm.Device.Connector.{
  Options, Sent, okay, connect_started, Connector, reply_started, reply_all, ready, begun, start_at,
  start, start_result, started_with, start_ends, Step, starts_on, start_settles, step, run,
}

-- the answers to requests on some channels
abbrev pub answers : Option String → List String → List Sent
answers none channels = []
answers (some url) [] = []
answers (some url) (channel ∷ channels) =
    okay channel (some url) ∷ connect_started channel url ∷ answers (some url) channels

reply_all-answers :
    (channels : List String) (url : String) (s : Connector)
    → reply_all channels url s ≡ record s { sent = s.sent ++ answers (some url) channels }
unfolding reply_all reply_started
reply_all-answers [] url s = ap (λ l. record s { sent = l }) (sym (append-nil s.sent))
reply_all-answers (channel ∷ channels) url s =
    reply_all-answers channels url (reply_started channel url s)
    ∙ ap (λ l. record s { sent = l })
        (append_assoc (s.sent ++ okay channel (some url) ∷ []) (connect_started channel url ∷ [])
            (answers (some url) channels)
          ∙ append_assoc s.sent (okay channel (some url) ∷ [])
              (connect_started channel url ∷ answers (some url) channels))

-- requests while a start is going on
waits :
    (o : Options) (channels : List String) (owner : String) (waiting : List String)
    (more : List Step) (s : Connector)
    → ready s.started s.url ≡ none
    → run o (map starts_on channels ++ more) (record s { start_promise = some (owner, waiting) })
      ≡ run o more (record s { start_promise = some (owner, waiting ++ channels) })
unfolding run step start start_at begun
waits o [] owner waiting more s idle =
    ap (λ l. run o more (record s { start_promise = some (owner, l) })) (sym (append-nil waiting))
waits o (channel ∷ channels) owner waiting more s idle =
    ap
      (λ u.
        run o (map starts_on channels ++ more)
          (start_at channel u (record s { start_promise = some (owner, waiting) })))
      idle
    ∙ waits o channels owner (waiting ++ channel ∷ []) more s idle
    ∙ ap (λ l. run o more (record s { start_promise = some (owner, l) }))
        (append_assoc waiting (channel ∷ []) channels)

-- what a start leaves, by its result
abbrev pub left_by : Option String → List String → Connector → Connector
left_by none channels s = record s { starts = s.starts + 1 }
left_by (some url) channels s = record s {
  started = true;
  url = some url;
  starts = s.starts + 1;
  sent = s.sent ++ answers (some url) channels;
}

settled :
    (result : Option String) (owner : String) (waiting : List String) (s : Connector)
    → s.start_promise ≡ none
    → started_with result
        (some (owner, waiting))
        (record s { start_promise = some (owner, waiting); starts = s.starts + 1 })
      ≡ left_by result (owner ∷ waiting) s
unfolding started_with reply_started
settled none owner waiting s e =
    ap (λ q. record s { start_promise = q; starts = s.starts + 1 }) (sym e)
settled (some url) owner waiting s e =
    reply_all-answers waiting url (record s {
      started = true;
      url = some url;
      start_promise = none;
      starts = s.starts + 1;
      sent = (s.sent ++ okay owner (some url) ∷ []) ++ connect_started owner url ∷ [];
    })
    ∙ ap
        (λ l. record s {
          started = true;
          url = some url;
          start_promise = none;
          starts = s.starts + 1;
          sent = l;
        })
        (append_assoc (s.sent ++ okay owner (some url) ∷ []) (connect_started owner url ∷ [])
            (answers (some url) waiting)
          ∙ append_assoc s.sent (okay owner (some url) ∷ [])
              (connect_started owner url ∷ answers (some url) waiting))
    ∙ ap
        (λ q. record s {
          started = true;
          url = some url;
          start_promise = q;
          starts = s.starts + 1;
          sent = s.sent ++ answers (some url) (owner ∷ waiting);
        })
        (sym e)

-- On a connector that is not started and not starting, requests on any channels before the start
-- has ended call the handler once; if it ends with a URL, the connector is started and each
-- channel is answered with that URL, once and in the order of the requests, and if it fails,
-- nothing is sent and the connector is idle again.
pub start-is_shared :
    (o : Options) (channel : String) (channels : List String) (url : Option String)
    (device : Option (Option String)) (s : Connector)
    → ready s.started s.url ≡ none
    → s.start_promise ≡ none
    → run o (starts_on channel ∷ map starts_on channels ++ start_settles url device ∷ []) s
      ≡ left_by (start_result o url device) (channel ∷ channels) s
unfolding run step start start_at begun start_ends
start-is_shared o channel channels url device s idle free =
    let more = map starts_on channels ++ start_settles url device ∷ [] in
    ap (λ u. run o more (start_at channel u s)) idle
    ∙ ap (λ q. run o more (begun channel q s)) free
    ∙ waits o channels channel [] (start_settles url device ∷ [])
        (record s { starts = s.starts + 1 }) idle
    ∙ settled (start_result o url device) channel channels s free
