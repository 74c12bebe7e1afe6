-- ===== src/Docker/Calls/Ensured.antt =====
-- `EnsureNetwork` and `EnsureVolume`: what is there afterwards, and what is asked for on the way.
use hostd.Base.{◌≡◌, refl, inl, inr, ◌⊎◌, Bool, true, false, [], Text, codes, if◌then◌else◌}
use hostd.Docker.{
  Json, text, field, end, get, Engine, unreachable, missing, reported, rejected, undecodable,
  Answer, got, failed,
}
use hostd.Docker.Transport.{plain, with_body, read_call, tell_call}
use hostd.Docker.Calls.{
  already_exists, name_field, if_missing, agreed, network_path, create_network, ensure_network,
}

module _ (k : Engine) where
  open k use {State}

  -- The thing is there; or an error is returned, and the daemon is as it was or as one creation
  -- left it.
  abbrev pub Ensures :
      (State → Type 0) → (State → Answer Text × State) → State → Answer Text × State → Type 0
  Ensures Exists build s (got body, s') = Exists s'
  Ensures Exists build s (failed p, s') = (s' ≡ s) ⊎ (s' ≡ (build s).1)

  -- What a creation that succeeds, or is told that the thing is there, leaves behind.
  abbrev pub Creates : (State → Type 0) → Answer Text × State → Type 0
  Creates Exists (got body, s') = Exists s'
  Creates Exists (failed p, s') = already_exists p ≡ true → Exists s'

  abbrev pub Makes : (State → Type 0) → Answer Text × State → Type 0
  Makes Exists (got body, s') = Exists s'
  Makes Exists (failed p, s') = Unit

  built :
      (Exists : State → Type 0) (build : State → Answer Text × State) (s : State)
      (p : Answer Text × State)
      → Makes Exists p
      → p.1 ≡ (build s).1
      → Ensures Exists build s p
  built Exists build s (got body, s') made e = made
  built Exists build s (failed p, s') made e = inr e

  if_missing-Ensures :
      (Exists : State → Type 0) (build : State → Answer Text × State) (seen : Answer Text)
      (s : State)
      → ((body : Text) → seen ≡ got body → Exists s)
      → Makes Exists (build s)
      → Ensures Exists build s (if_missing k build seen s)
  if_missing-Ensures Exists build (got body) s there made = there body refl
  if_missing-Ensures Exists build (failed (missing detail)) s there made =
      built Exists build s (build s) made refl
  if_missing-Ensures Exists build (failed (unreachable why)) s there made = inl refl
  if_missing-Ensures Exists build (failed (reported why)) s there made = inl refl
  if_missing-Ensures Exists build (failed (rejected status why)) s there made = inl refl
  if_missing-Ensures Exists build (failed undecodable) s there made = inl refl

  agreed-Makes :
      (Exists : State → Type 0) (p : Answer Text × State)
      → Creates Exists p
      → Makes Exists (agreed k p.0, p.1)
  unfolding agreed
  agreed-Makes Exists (got body, s') h = h
  agreed-Makes Exists (failed p, s') h = settled (already_exists p) h
    where
      settled :
          (b : Bool) → (b ≡ true → Exists s') → Makes Exists (if b then got [] else failed p, s')
      settled true e = e refl
      settled false e = tt

  abbrev pub network_request : Text → Json
  network_request name = name_field name (field (codes "Driver") (text (codes "bridge")) end)

  -- When a network that the daemon describes is there, and one is there after a creation that
  -- succeeds or is refused because it "already exists", then `EnsureNetwork` either succeeds and
  -- the network is there, or fails with the daemon as it was or as one creation left it.
  pub ensure_network-Ensures :
      (name : Text) (Exists : State → Type 0)
      → ((s : State) (body : Text)
          → read_call k (plain get (network_path k name) []) s ≡ got body
          → Exists s)
      → ((s : State)
          → Creates Exists
              (tell_call k (with_body (codes "/networks/create") [] (network_request name)) s))
      → (s : State) → Ensures Exists (create_network k name) s (ensure_network k name s)
  unfolding ensure_network create_network
  ensure_network-Ensures name Exists there made s =
      if_missing-Ensures Exists (create_network k name)
        (read_call k (plain get (network_path k name) []) s) s (there s)
        (agreed-Makes Exists _ (made s))
