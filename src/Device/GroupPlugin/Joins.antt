-- ===== src/Device/GroupPlugin/Joins.antt =====
-- A join, and one more join of the owner.
use mathlib.Core.Path.{subst}
use mercury_farm.Base.{
  ℕ, ◌<◌, ◌≡◌, refl, sym, ap, ◌∙◌, Option, none, some, List, [], ◌∷◌, ◌++◌, arith, if-cases,
  get_elem?,
}
use mercury_farm.Base.Text.{String, str_eq, field}
use mercury_farm.Wire.ChannelManager.{
  change, change_at, put_at, Channel, ChannelManager, update_timeout,
}
use mercury_farm.Device.GroupPlugin.{
  Owner, Options, join_group, Plugin, given, with_usage, extend, rejoin, registered, or_default,
  enter, join_valid, join,
}
use mercury_farm.Device.GroupPlugin.Channels.{Held, change-Held, register-Held}
use mercury_farm.Device.GroupPlugin.Owned.{
  told, replay, replay-append, Free, Taken, Owned, Inv, push-Inv, status-IsNeutral, sync-Inv,
}

registered-Inv :
    (o : Options) (g : Owner) (timeout : ℕ) (usage : Option String) (keys : List String)
    (p : Plugin) (n : ChannelManager)
    → p.current_group ≡ some g
    → p.subscribed ≡ []
    → replay (some none) p.sent ≡ some none
    → Held o.solo_channel g.group n
    → Inv o (registered g timeout usage keys p (some n))
unfolding registered
registered-Inv o g timeout usage keys p n e subs t held = sync-Inv o _ g e (record {
  held = held;
  subscribed = ap (λ cs. cs ++ g.group ∷ []) subs;
  all_told =
      replay-append (some none) p.sent (join_group g usage timeout ∷ [])
      ∙ ap (λ s. told s (join_group g usage timeout)) t;
})

or_default_pos : (timeout default : ℕ) → 0 < default → 0 < or_default timeout default
or_default_pos timeout default h = ground arith

enter-Inv :
    (o : Options) (now : ℕ) (g : Owner) (timeout : ℕ) (usage : Option String) (keys : List String)
    (p : Plugin)
    → 0 < o.group_timeout
    → Free p
    → Inv o (enter o now g timeout usage keys p)
unfolding enter
enter-Inv o now g timeout usage keys p h f =
    let (n, made, held) =
      register-Held now (or_default timeout o.group_timeout) p.channels f.no_channels
        (or_default_pos timeout o.group_timeout h) in
    let q : Plugin = record p { current_group = some g; current_usage = given usage } in
    subst (λ m. Inv o (registered g timeout usage keys q m)) (sym made)
      (registered-Inv o g timeout usage keys q n refl f.no_subscription f.all_told held)

with_usage-Inv :
    (o : Options) (usage : Option String) (p : Plugin) (g : Owner)
    → p.current_group ≡ some g
    → Taken o p g
    → Inv o (with_usage usage p)
with_usage-Inv o none p g e t = record { owner = some g; current = e; owned = t }
with_usage-Inv o (some usage) p g e t =
    sync-Inv o (record p { current_usage = some usage }) g e
      (record { held = t.held; subscribed = t.subscribed; all_told = t.all_told })

-- a change of the channels that keeps the group's one
channels-Owned :
    (o : Options) (p : Plugin) (c : Option Owner) (m : ChannelManager)
    → (m.channels ≡ p.channels.channels)
    → ((g : Owner) → Held o.solo_channel g.group p.channels → Held o.solo_channel g.group m)
    → Owned o p c
    → Owned o (record p { channels = m }) c
channels-Owned o p none m same keep f = record {
  no_channels = same ∙ f.no_channels;
  no_subscription = f.no_subscription;
  silent = f.silent;
  all_told = f.all_told;
}
channels-Owned o p (some g) m same keep t = record {
  held = keep g t.held;
  subscribed = t.subscribed;
  alive = t.alive;
  all_told = t.all_told;
}

put_at-channels :
    (f : Channel → Channel) (m : ChannelManager) (k : ℕ) (c : Option Channel)
    → (put_at f m k c).channels ≡ m.channels
put_at-channels f m k none = refl
put_at-channels f m k (some c) = refl

change_at-channels :
    (f : Channel → Channel) (m : ChannelManager) (k : Option ℕ)
    → (change_at f m k).channels ≡ m.channels
change_at-channels f m none = refl
change_at-channels f m (some k) = put_at-channels f m k (get_elem? m.store k)

pub change-Owned :
    (o : Options) (p : Plugin) (c : Option Owner) (f : Channel → Channel) (id : String)
    → ((x : Channel) → (f x).alias ≡ x.alias)
    → Owned o p c
    → Owned o (record p { channels = change id f p.channels }) c
unfolding change
change-Owned o p c f id same i =
    channels-Owned o p c (change id f p.channels)
      (change_at-channels f p.channels (field p.channels.channels id))
      (λ g h. change-Held f id p.channels same h) i

extend-Inv :
    (o : Options) (g : Owner) (usage : Option String) (p : Plugin)
    → p.current_group ≡ some g
    → Taken o p g
    → Inv o (extend g usage p)
unfolding extend update_timeout
extend-Inv o g usage p e t =
    let i : Inv o (with_usage usage p) = with_usage-Inv o usage p g e t in
    push-Inv o _ _ (status-IsNeutral _) (record {
      owner = i.owner;
      current = i.current;
      owned = change-Owned o (with_usage usage p) i.owner _ g.group (λ _. refl) i.owned;
    })

join_valid-Inv :
    (o : Options) (now : ℕ) (g : Owner) (timeout : ℕ) (usage : Option String) (keys : List String)
    (p : Plugin) (c : Option Owner)
    → 0 < o.group_timeout
    → p.current_group ≡ c
    → Owned o p c
    → Inv o (join_valid o now g timeout usage keys p c)
unfolding join_valid rejoin
join_valid-Inv o now g timeout usage keys p none h e i = enter-Inv o now g timeout usage keys p h i
join_valid-Inv o now g timeout usage keys p (some c) h e i =
    if-cases (Inv o) (str_eq c.group g.group) (λ _. extend-Inv o c (given usage) p e i)
      (λ _. record { owner = some c; current = e; owned = i })

pub join-Inv :
    (o : Options) (now : ℕ) (g : Option Owner) (timeout : ℕ) (usage : Option String)
    (keys : List String) (p : Plugin)
    → 0 < o.group_timeout
    → Inv o p
    → Inv o (join o now g timeout usage keys p)
unfolding join
join-Inv o now none timeout usage keys p h i = i
join-Inv o now (some g) timeout usage keys p h i =
    if-cases (Inv o) (str_eq g.group "") (λ _. i)
      (λ _.
        subst (λ c. Inv o (join_valid o now g timeout usage keys p c)) (sym i.current)
          (join_valid-Inv o now g timeout usage keys p i.owner h i.current i.owned))
