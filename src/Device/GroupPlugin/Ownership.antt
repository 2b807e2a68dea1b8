-- ===== src/Device/GroupPlugin/Ownership.antt =====
-- The plugin's owner over any sequence of messages, timeouts and ticks.
use mathlib.Core.Path.{subst}
use mercury_farm.Base.{
  ℕ, ◌<◌, ◌≡◌, refl, sym, ap, ◌∙◌, Option, none, some, List, [], ◌∷◌, if-cases, length, drop,
  drop-append_self, drop-length,
}
use mercury_farm.Base.Text.{String, eq_refl, field}
use mercury_farm.Wire.ChannelManager.{
  find, object, unregistered, ChannelManager, unregister, keepalive, check,
}
use mercury_farm.Device.GroupPlugin.{
  Owner, Options, leave_group, Plugin, emit, Emitted, send_alive_to, stop_automation_alive, join,
  without, left_from, leave_at, leave, or_same, check_before_action, Verdict, passes, declines,
  rejects, on_group, on_auto_group, on_ungroup, is_group, on_timeout, on_timeouts, check_channel,
  on_exit, Event, group_message, auto_group_message, ungroup_message, traffic, timer, alive_tick,
  exits, step, run, new,
}
use mercury_farm.Device.GroupPlugin.Channels.{
  unregister-Held, Checked, goes_on, is_out, check-Checked,
}
use mercury_farm.Device.GroupPlugin.Owned.{
  told, replay, replay-append, Taken, Owned, Inv, push-Inv, okay-IsNeutral, fail-IsNeutral,
  alive-told,
}
use mercury_farm.Device.GroupPlugin.Joins.{change-Owned, join-Inv}

left_from-Inv :
    (o : Options) (g : Owner) (reason : String) (p : Plugin)
    → (unregister g.group p.channels).channels ≡ []
    → p.subscribed ≡ g.group ∷ []
    → replay (some none) p.sent ≡ some (some g)
    → Inv o (left_from g reason p)
unfolding left_from stop_automation_alive
left_from-Inv o g reason p gone subs t = record {
  owner = none;
  current = refl;
  owned = record {
    no_channels = gone;
    no_subscription = ap (without g.group) subs ∙ rw (eq_refl g.group) refl;
    silent = refl;
    all_told =
        replay-append (some none) p.sent (leave_group g reason ∷ [])
        ∙ ap (λ s. told s (leave_group g reason)) t
        ∙ rw (eq_refl g.group, eq_refl g.email, eq_refl g.name) refl;
  };
}

leave_at-Inv :
    (o : Options) (reason : String) (p : Plugin) (c : Option Owner)
    → Inv o p
    → Owned o p c
    → Inv o (or_same p (leave_at reason p c))
leave_at-Inv o reason p none i f = i
leave_at-Inv o reason p (some g) i t =
    left_from-Inv o g reason p (unregister-Held p.channels t.held) t.subscribed t.all_told

leave-Inv :
    (o : Options) (reason : String) (p : Plugin) → Inv o p → Inv o (or_same p (leave reason p))
unfolding leave
leave-Inv o reason p i =
    subst (λ c. Inv o (or_same p (leave_at reason p c))) (sym i.current)
      (leave_at-Inv o reason p i.owner i i.owned)

-- the state after the check before an action
verdict-Inv :
    (o : Options) (v : Verdict) (channel : String) (p : Plugin)
    → Inv o p
    → Inv o (check_before_action v channel p).0
unfolding check_before_action
verdict-Inv o passes channel p i = i
verdict-Inv o declines channel p i = i
verdict-Inv o (rejects text) channel p i = push-Inv o _ p (fail-IsNeutral channel text) i

on_group-Inv :
    (o : Options) (now : ℕ) (v : Verdict) (channel : String) (g : Option Owner) (timeout : ℕ)
    (usage : Option String) (keys : List String) (p : Plugin)
    → 0 < o.group_timeout
    → Inv o p
    → Inv o (on_group o now v channel g timeout usage keys p)
unfolding on_group
on_group-Inv o now v channel g timeout usage keys p h i =
    let q : Plugin = (check_before_action v channel p).0 in
    let j : Inv o q = verdict-Inv o v channel p i in
    if-cases (Inv o) (check_before_action v channel p).1
      (λ _. push-Inv o _ _ (okay-IsNeutral channel) (join-Inv o now g timeout usage keys q h j))
      (λ _. j)

on_ungroup-Inv :
    (o : Options) (v : Verdict) (channel : String) (p : Plugin)
    → Inv o p
    → Inv o (on_ungroup v channel p)
unfolding on_ungroup
on_ungroup-Inv o v channel p i =
    let q : Plugin = (check_before_action v channel p).0 in
    let j : Inv o q = verdict-Inv o v channel p i in
    if-cases (Inv o) (check_before_action v channel p).1
      (λ _. push-Inv o _ _ (okay-IsNeutral channel) (leave-Inv o "ungroup_request" q j)) (λ _. j)

unregister-gone :
    (id : String) (m : ChannelManager) → m.channels ≡ [] → (unregister id m).channels ≡ []
unfolding unregister unregistered find field
unregister-gone id m e =
    ap (λ c. (unregistered id m c).channels) (ap (λ ns. object m (field ns id)) e) ∙ e

-- The group's channel is out, and the plugin leaves the group.
timed_out-Inv :
    (o : Options) (p : Plugin) (g : Owner) (m : ChannelManager)
    → p.current_group ≡ some g
    → Taken o p g
    → m.channels ≡ []
    → Inv o (on_timeout g.group (record p { channels = m }))
unfolding on_timeout leave
timed_out-Inv o p g m e t out =
    let q : Plugin = record p { channels = m } in
    if-cases (Inv o) (is_group p.current_group g.group)
      (λ _.
        subst (λ c. Inv o (or_same q (leave_at "automatic_timeout" q c))) (sym e)
          (left_from-Inv o g "automatic_timeout" q (unregister-gone g.group m out) t.subscribed
            t.all_told))
      (λ no_group. cc (no_group, ap (λ c. is_group c g.group) e, eq_refl g.group))

Checked-Inv :
    (o : Options) (p : Plugin) (g : Owner) (m : ChannelManager)
    → p.current_group ≡ some g
    → Taken o p g
    → Checked o.solo_channel g.group p.channels m
    → Inv o (on_timeouts (drop (length p.channels.timeouts) m.timeouts) (record p { channels = m }))
unfolding on_timeouts
Checked-Inv o p g m e t (goes_on held same) =
    subst (λ ts. Inv o (on_timeouts ts (record p { channels = m })))
      (sym (ap (drop (length p.channels.timeouts)) same ∙ drop-length p.channels.timeouts))
      (record {
        owner = some g;
        current = e;
        owned = record {
          held = held;
          subscribed = t.subscribed;
          alive = t.alive;
          all_told = t.all_told;
        };
      })
Checked-Inv o p g m e t (is_out out same) =
    subst (λ ts. Inv o (on_timeouts ts (record p { channels = m })))
      (sym (
        ap (drop (length p.channels.timeouts)) same
        ∙ drop-append_self p.channels.timeouts (g.group ∷ [])))
      (timed_out-Inv o p g m e t out)

check_channel-Inv :
    (o : Options) (now : ℕ) (p : Plugin) (c : Option Owner)
    → p.current_group ≡ c
    → Owned o p c
    → Inv o (check_channel now p c)
unfolding check_channel
check_channel-Inv o now p none e f = record { owner = none; current = e; owned = f }
check_channel-Inv o now p (some g) e t =
    Checked-Inv o p g (check now g.group p.channels) e t (check-Checked now p.channels t.held)

emit-Owned :
    (o : Options) (x : Emitted) (p : Plugin) (c : Option Owner) → Owned o p c → Owned o (emit x p) c
emit-Owned o x p none f = record {
  no_channels = f.no_channels;
  no_subscription = f.no_subscription;
  silent = f.silent;
  all_told = f.all_told;
}
emit-Owned o x p (some g) t = record {
  held = t.held;
  subscribed = t.subscribed;
  alive = t.alive;
  all_told = t.all_told;
}

tick-Inv :
    (o : Options) (p : Plugin) (c : Option Owner)
    → p.current_group ≡ c
    → Owned o p c
    → Inv o (send_alive_to c p)
unfolding send_alive_to
tick-Inv o p none e f = record { owner = none; current = e; owned = f }
tick-Inv o p (some g) e t = record {
  owner = some g;
  current = e;
  owned = record {
    held = t.held;
    subscribed = t.subscribed;
    alive = t.alive;
    all_told = alive-told p g t.all_told;
  };
}

step-Inv :
    (o : Options) (now : ℕ) (x : Event) (p : Plugin)
    → 0 < o.group_timeout
    → Inv o p
    → Inv o (step o now x p)
unfolding step on_auto_group on_exit keepalive
step-Inv o now (group_message v channel g timeout usage keys) p h i =
    on_group-Inv o now v channel g timeout usage keys p h i
step-Inv o now (auto_group_message g identifier) p h i =
    let j : Inv o (join o now g 0 identifier [] p) = join-Inv o now g 0 identifier [] p h i in
    record {
      owner = j.owner;
      current = j.current;
      owned = emit-Owned o _ (join o now g 0 identifier [] p) j.owner j.owned;
    }
step-Inv o now (ungroup_message v channel) p h i = on_ungroup-Inv o v channel p i
step-Inv o now (traffic channel) p h i = record {
  owner = i.owner;
  current = i.current;
  owned = change-Owned o p i.owner _ channel (λ _. refl) i.owned;
}
step-Inv o now timer p h i =
    subst (λ c. Inv o (check_channel now p c)) (sym i.current)
      (check_channel-Inv o now p i.owner i.current i.owned)
step-Inv o now alive_tick p h i =
    if-cases (Inv o) p.alive_timer
      (λ _.
        subst (λ c. Inv o (send_alive_to c p)) (sym i.current)
          (tick-Inv o p i.owner i.current i.owned))
      (λ _. i)
step-Inv o now exits p h i = leave-Inv o "device_absent" p i

run-from :
    (o : Options) (es : List (ℕ × Event)) (p : Plugin)
    → 0 < o.group_timeout
    → Inv o p
    → Inv o (run o es p)
unfolding run
run-from o [] p h i = i
run-from o ((now, x) ∷ es) p h i = run-from o es (step o now x p) h (step-Inv o now x p h i)

-- For a default timeout that is not 0, after any messages, timeouts and ticks on a new plugin: a
-- current group has its channel, the channel of the device as the alias, and the only
-- subscription, and without one there is no channel and no subscription; the alive timer runs just
-- for an automation; and the join, alive and leave messages, in their turns, tell the current
-- owner.
pub run-Inv : (o : Options) (es : List (ℕ × Event)) → 0 < o.group_timeout → Inv o (run o es new)
unfolding new
run-Inv o es h = run-from o es new h (record {
  owner = none;
  current = refl;
  owned = record { no_channels = refl; no_subscription = refl; silent = refl; all_told = refl };
})
