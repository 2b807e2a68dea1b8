-- ===== src/Device/GroupPlugin/Channels.antt =====
-- The channel of a group in the channel manager, under its id and the solo channel.
use mathlib.Core.Path.{subst}
use mercury_farm.Base.{
  ℕ, ◌-◌, ◌<◌, ◌≡◌, ◌⊎◌, inl, inr, refl, sym, ap, ◌∙◌, Bool, false, Option, none, some, List, [],
  ◌∷◌, ◌++◌, arith, length, get_elem?, ltb, leb, if◌then◌else◌, if-cases, is_some,
}
use mercury_farm.Base.Text.{String, str_eq, eq_refl, field, delete_field}
use mercury_farm.Wire.ChannelManager.{
  Channel, ChannelManager, object, find, change, change_at, put_at, without, unregistered,
  unregister, checked, check, register,
}
use mercury_farm.Wire.ChannelManager.Expiry.{get-set}

-- No channel but the one of the group `g`, which the solo channel shares.
pub record Held (solo : String) (g : String) (m : ChannelManager) : Type 0 where
  pub key : ℕ
  pub channel : Channel
  pub names : m.channels ≡ (g, key) ∷ (solo, key) ∷ []
  pub stored : get_elem? m.store key ≡ some channel
  pub aliased : channel.alias ≡ some solo

field-Held :
    (g solo id : String) (k : ℕ)
    → (field ((g, k) ∷ (solo, k) ∷ []) id ≡ none) ⊎ (field ((g, k) ∷ (solo, k) ∷ []) id ≡ some k)
unfolding field
field-Held g solo id k =
    if-cases (λ (o : Option ℕ). (o ≡ none) ⊎ (o ≡ some k)) (str_eq g id) (λ _. inr refl)
      (λ _.
        if-cases (λ (o : Option ℕ). (o ≡ none) ⊎ (o ≡ some k)) (str_eq solo id) (λ _. inr refl)
          (λ _. inl refl))

field-own : (g solo : String) (k : ℕ) → field ((g, k) ∷ (solo, k) ∷ []) g ≡ some k
unfolding field
field-own g solo k = rw (eq_refl g) refl

deleted :
    (g solo : String) (k : ℕ) → delete_field (delete_field ((g, k) ∷ (solo, k) ∷ []) g) solo ≡ []
unfolding delete_field
deleted g solo k = ground (arith, eq_refl g, eq_refl solo)

put_at-timeouts :
    (f : Channel → Channel) (m : ChannelManager) (k : ℕ) (o : Option Channel)
    → (put_at f m k o).timeouts ≡ m.timeouts
put_at-timeouts f m k none = refl
put_at-timeouts f m k (some c) = refl

change_at-timeouts :
    (f : Channel → Channel) (m : ChannelManager) (o : Option ℕ)
    → (change_at f m o).timeouts ≡ m.timeouts
change_at-timeouts f m none = refl
change_at-timeouts f m (some k) = put_at-timeouts f m k (get_elem? m.store k)

get-snoc : (cs : List Channel) (c : Channel) → get_elem? (cs ++ c ∷ []) (length cs) ≡ some c
get-snoc [] c = refl
get-snoc (d ∷ cs) c = get-snoc cs c

-- What a check of the group's channel comes to: it goes on, or it is out.
pub data Checked (solo g : String) (m : ChannelManager) : ChannelManager → Type 0 where
  goes_on : {n : ChannelManager} → Held solo g n → n.timeouts ≡ m.timeouts → Checked solo g m n
  is_out :
      {n : ChannelManager}
      → n.channels ≡ []
      → n.timeouts ≡ m.timeouts ++ g ∷ []
      → Checked solo g m n

module _ {solo g : String} where
  pub find-Held : (m : ChannelManager) (h : Held solo g m) → find g m ≡ some h.channel
  unfolding find
  find-Held m h =
      ap (λ ns. object m (field ns g)) h.names ∙ ap (object m) (field-own g solo h.key) ∙ h.stored

  put-Held :
      (f : Channel → Channel) (m : ChannelManager)
      → ((c : Channel) → (f c).alias ≡ c.alias)
      → (h : Held solo g m) → Held solo g (change_at f m (some h.key))
  put-Held f m same h =
      subst (λ o. Held solo g (put_at f m h.key o)) (sym h.stored)
        (record {
          key = h.key;
          channel = f h.channel;
          names = h.names;
          stored = get-set m.store h.key h.channel (f h.channel) h.stored;
          aliased = same h.channel ∙ h.aliased;
        })

  pub change-Held :
      (f : Channel → Channel) (id : String) (m : ChannelManager)
      → ((c : Channel) → (f c).alias ≡ c.alias)
      → Held solo g m
      → Held solo g (change id f m)
  unfolding change
  change-Held f id m same h = elim (field-Held g solo id h.key) [
    | inl none_there ↦
        subst (λ o. Held solo g (change_at f m o))
          (sym (ap (λ ns. field ns id) h.names ∙ none_there)) h
    | inr there ↦
        subst (λ o. Held solo g (change_at f m o)) (sym (ap (λ ns. field ns id) h.names ∙ there))
          (put-Held f m same h)
  ]

  -- without the group's channel nothing is left
  pub unregister-Held : (m : ChannelManager) → Held solo g m → (unregister g m).channels ≡ []
  unfolding unregister unregistered
  unregister-Held m h =
      ap (λ o. (unregistered g m o).channels) (find-Held m h)
      ∙ ap (λ alias. without alias (delete_field m.channels g)) h.aliased
      ∙ ap (λ ns. delete_field (delete_field ns g) solo) h.names
      ∙ deleted g solo h.key

  checked-Checked :
      (now : ℕ) (m : ChannelManager)
      → (h : Held solo g m) → Checked solo g m (checked now g m (some h.channel))
  unfolding checked change
  checked-Checked now m h =
      if-cases (Checked solo g m) (leb h.channel.timeout (now - h.channel.last_activity))
        (λ _. is_out (unregister-Held m h) refl)
        (λ _.
          if-cases (Checked solo g m) (ltb 1 h.channel.timeout)
            (λ _.
              goes_on (change-Held _ g m (λ _. refl) h)
                (change_at-timeouts _ m (field m.channels g)))
            (λ _. goes_on h refl))

  pub check-Checked :
      (now : ℕ) (m : ChannelManager) → Held solo g m → Checked solo g m (check now g m)
  unfolding check
  check-Checked now m h =
      subst (λ o. Checked solo g m (checked now g m o)) (sym (find-Held m h))
        (checked-Checked now m h)

  -- On a manager with no channel the group's channel is registered, if its timeout is not 0.
  pub register-Held :
      (now timeout : ℕ) (m : ChannelManager)
      → m.channels ≡ []
      → 0 < timeout
      → (n : ChannelManager) × (register now g timeout (some solo) m ≡ some n) × Held solo g n
  unfolding register check checked field
  register-Held now timeout m e h =
      let k : ℕ = length m.store in
      let c : Channel = record {
        timeout = timeout;
        alias = some solo;
        last_activity = now;
        timer = none;
      } in
      let n : ChannelManager = record m {
        store = m.store ++ c ∷ [];
        channels = (g, k) ∷ (solo, k) ∷ m.channels;
      } in
      let held : Held solo g n = record {
        key = k;
        channel = c;
        names = ap (λ ns. (g, k) ∷ (solo, k) ∷ ns) e;
        stored = get-snoc m.store c;
        aliased = refl;
      } in
      let free : is_some (field m.channels solo) ≡ false = ap (λ ns. is_some (field ns solo)) e in
      (
        check now g n,
        ap (λ (b : Bool). if b then none else some (check now g n)) free,
        subst (λ o. Held solo g (checked now g n o)) (sym (find-Held n held))
            (if-cases (Held solo g) (leb timeout (now - now)) (λ old. absurd (ground arith))
              (λ _.
                if-cases (Held solo g) (ltb 1 timeout) (λ _. change-Held _ g n (λ _. refl) held)
                  (λ _. held))),
      )
