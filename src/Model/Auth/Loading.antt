-- ===== src/Model/Auth/Loading.antt =====
-- What is left of the options when nothing in them can be loaded.
use oida.Prelude.{if-split, Text, text_eq, ◌≡◌, refl, true, false, none, []}
use oida.Model.Auth.{
  Codec, AuthOptions, parse_networks, load_users, copy_users, is_unset, new_auth, login_required,
  network_allowed,
}

module _ (k : Codec) where
  -- An allow list of which no entry parses, and users of which none is loaded.
  pub record IsLost (o : AuthOptions k) : Type 0 where
    pub networks : parse_networks k o.allowed_networks ≡ []
    pub loaded : load_users k o.users_file ≡ []
    pub users : o.users ≡ []
    pub authorize : o.authorize_user ≡ none
    pub secret : o.signing_secret ≡ []

  pub network_allowed-new_auth :
      (generated : Text) (o : AuthOptions k) (peer : Text)
      → IsLost o
      → network_allowed k (new_auth k generated o) peer ≡ true
  unfolding new_auth network_allowed
  network_allowed-new_auth generated o peer l =
      if-split (λ a. network_allowed k a peer ≡ true) (is_unset k o) (λ y. refl)
        (λ n. rw l.networks refl)

  pub login_required-new_auth :
      (generated : Text) (o : AuthOptions k)
      → IsLost o
      → login_required k (new_auth k generated o) ≡ false
  unfolding new_auth login_required copy_users text_eq
  login_required-new_auth generated o l =
      if-split (λ a. login_required k a ≡ false) (is_unset k o) (λ y. refl)
        (λ n. rw (l.loaded, l.users, l.authorize, l.secret) refl)
