-- ===== src/Device/GroupPlugin/Owned.antt =====
-- One owner at a time: the fields of the plugin, its channel, its subscription and what it has told.
use mathlib.Core.Path.{subst}
use mercury_farm.Base.{
  ℕ, ◌≡◌, refl, sym, ap, ◌∙◌, Bool, true, false, not, ◌&&◌, Option, none, some, List, [], ◌∷◌, ◌++◌,
  if◌then◌else◌, if-cases,
}
use mercury_farm.Base.Text.{String, str_eq, eq_refl}
use mercury_farm.Device.GroupPlugin.{
  Owner, Options, Sent, automation_alive, status_change, join_group, leave_group, okay, fail,
  Plugin, push, is_automation, in_run, send_alive_to, sync_automation_alive,
}
use mercury_farm.Device.GroupPlugin.Channels.{Held}

abbrev pub same_owner : Owner → Owner → Bool
same_owner g h = str_eq g.group h.group && (str_eq g.email h.email && str_eq g.name h.name)

-- The owner that those who listen know of; the outer none is a message that is out of turn.
abbrev pub told : Option (Option Owner) → Sent → Option (Option Owner)
told (some none) (join_group g usage timeout) = some (some g)
told (some none) (automation_alive channel) = none
told (some none) (leave_group h reason) = none
told (some (some g)) (join_group h usage timeout) = none
told (some (some g)) (leave_group h reason) = if same_owner g h then some none else none
told (some (some g)) (automation_alive channel) =
    if str_eq g.group channel then some (some g) else none
told (some o) (status_change t) = some o
told (some o) (okay channel) = some o
told (some o) (fail channel text) = some o
told none _ = none

abbrev pub replay : Option (Option Owner) → List Sent → Option (Option Owner)
replay o [] = o
replay o (x ∷ xs) = replay (told o x) xs

pub replay-append :
    (o : Option (Option Owner)) (xs ys : List Sent) → replay o (xs ++ ys) ≡ replay (replay o xs) ys
replay-append o [] ys = refl
replay-append o (x ∷ xs) ys = replay-append (told o x) xs ys

-- on a device in no group
pub record Free (p : Plugin) : Type 0 where
  pub no_channels : p.channels.channels ≡ []
  pub no_subscription : p.subscribed ≡ []
  pub silent : p.alive_timer ≡ false
  pub all_told : replay (some none) p.sent ≡ some none

-- on a device in the group `g`, but for the timer
pub record Entered (o : Options) (p : Plugin) (g : Owner) : Type 0 where
  pub held : Held o.solo_channel g.group p.channels
  pub subscribed : p.subscribed ≡ g.group ∷ []
  pub all_told : replay (some none) p.sent ≡ some (some g)

pub record Taken (o : Options) (p : Plugin) (g : Owner) : Type 0 where
  pub held : Held o.solo_channel g.group p.channels
  pub subscribed : p.subscribed ≡ g.group ∷ []
  pub alive : p.alive_timer ≡ is_automation p.current_usage
  pub all_told : replay (some none) p.sent ≡ some (some g)

abbrev pub Owned : Options → Plugin → Option Owner → Type 0
Owned o p none = Free p
Owned o p (some g) = Taken o p g

-- The fields agree, with the owner that the plugin has.
pub record Inv (o : Options) (p : Plugin) : Type 0 where
  pub owner : Option Owner
  pub current : p.current_group ≡ owner
  pub owned : Owned o p owner

pub IsNeutral : Sent → Type 0
IsNeutral x = (g : Option Owner) → told (some g) x ≡ some g

push-told :
    (x : Sent) (p : Plugin) (g : Option Owner)
    → IsNeutral x
    → replay (some none) p.sent ≡ some g
    → replay (some none) (push x p).sent ≡ some g
unfolding IsNeutral
push-told x p g n e = replay-append (some none) p.sent (x ∷ []) ∙ ap (λ s. told s x) e ∙ n g

push-Owned :
    (o : Options) (x : Sent) (p : Plugin) (c : Option Owner)
    → IsNeutral x
    → Owned o p c
    → Owned o (push x p) c
push-Owned o x p none n f = record {
  no_channels = f.no_channels;
  no_subscription = f.no_subscription;
  silent = f.silent;
  all_told = push-told x p none n f.all_told;
}
push-Owned o x p (some g) n t = record {
  held = t.held;
  subscribed = t.subscribed;
  alive = t.alive;
  all_told = push-told x p (some g) n t.all_told;
}

pub push-Inv : (o : Options) (x : Sent) (p : Plugin) → IsNeutral x → Inv o p → Inv o (push x p)
push-Inv o x p n i = record {
  owner = i.owner;
  current = i.current;
  owned = push-Owned o x p i.owner n i.owned;
}

pub okay-IsNeutral : (channel : String) → IsNeutral (okay channel)
unfolding IsNeutral
okay-IsNeutral channel none = refl
okay-IsNeutral channel (some g) = refl

pub fail-IsNeutral : (channel text : String) → IsNeutral (fail channel text)
unfolding IsNeutral
fail-IsNeutral channel text none = refl
fail-IsNeutral channel text (some g) = refl

pub status-IsNeutral : (t : Option ℕ) → IsNeutral (status_change t)
unfolding IsNeutral
status-IsNeutral t none = refl
status-IsNeutral t (some g) = refl

pub alive-told :
    (p : Plugin) (g : Owner)
    → replay (some none) p.sent ≡ some (some g)
    → replay (some none) (push (automation_alive g.group) p).sent ≡ some (some g)
alive-told p g e =
    replay-append (some none) p.sent (automation_alive g.group ∷ [])
    ∙ ap (λ s. told s (automation_alive g.group)) e
    ∙ rw (eq_refl g.group) refl

not-true : (b : Bool) → not b ≡ true → b ≡ false
not-true true h = cc
not-true false h = refl

not-false : (b : Bool) → not b ≡ false → b ≡ true
not-false true h = refl
not-false false h = cc

pub sync-Inv :
    (o : Options) (p : Plugin) (g : Owner)
    → p.current_group ≡ some g
    → Entered o p g
    → Inv o (sync_automation_alive p)
unfolding sync_automation_alive send_alive_to
sync-Inv o p g e n =
    let u : in_run p.current_group p.current_usage ≡ is_automation p.current_usage =
      ap (λ c. in_run c p.current_usage) e in
    if-cases (Inv o) (not (in_run p.current_group p.current_usage))
      (λ h. record {
        owner = some g;
        current = e;
        owned = record {
          held = n.held;
          subscribed = n.subscribed;
          alive = sym (sym u ∙ not-true _ h);
          all_told = n.all_told;
        };
      })
      (λ h.
        if-cases (Inv o) p.alive_timer
          (λ on. record {
            owner = some g;
            current = e;
            owned = record {
              held = n.held;
              subscribed = n.subscribed;
              alive = on ∙ sym (sym u ∙ not-false _ h);
              all_told = n.all_told;
            };
          })
          (λ _.
            subst (λ c. Inv o (record (send_alive_to c p) { alive_timer = true })) (sym e)
              (record {
                owner = some g;
                current = e;
                owned = record {
                  held = n.held;
                  subscribed = n.subscribed;
                  alive = sym (sym u ∙ not-false _ h);
                  all_told = alive-told p g n.all_told;
                };
              })))

-- a group that is entered by a device in none
