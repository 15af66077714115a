-- ===== src/Internal/RemoteAddress/Hops.antt =====
-- Which hop of a forwarding chain is taken for the client.
use oida.Prelude.{
  Bool-cases, All, Text, split, has_byte, split_one, split-append, ◌≡◌, refl, ap, ap₂, ◌∙◌, ◌⊎◌,
  inl, inr, true, false, Option, none, some, List, [], ◌∷◌, ◌++◌,
}
use mathlib.Core.List.{append-nil}
use oida.Internal.RemoteAddress.{
  Parsing, Request, found, parse_forwarded_addr, forwarded_headers, x_forwarded_headers,
  forwarded_chain, trusted_addr, last_untrusted, own_addr, remote_addr, or_skip, chosen,
}

list_cases : {A : Type 0} (xs : List A) → (xs ≡ []) ⊎ ((x : A) × (ys : List A) × (xs ≡ x ∷ ys))
list_cases [] = inl refl
list_cases (x ∷ ys) = inr (x, ys, refl)

module _ (p : Parsing) where
  -- A chain whose last untrusted hop is `a`.
  abbrev EndsAt : p.Address → List p.Address → Type 0
  EndsAt a chain =
      (left : List p.Address) × (right : List p.Address) × (chain ≡ left ++ (a ∷ right))
      × (trusted_addr p a ≡ false)
      × All (λ b. trusted_addr p b ≡ true) right

  last_untrusted_cases :
      (chain : List p.Address)
      → ((last_untrusted p chain ≡ none) × All (λ b. trusted_addr p b ≡ true) chain)
        ⊎ ((a : p.Address) × (last_untrusted p chain ≡ some a) × EndsAt a chain)
  unfolding last_untrusted
  last_untrusted_cases [] = inl (refl, tt)
  last_untrusted_cases (a ∷ chain) = elim (last_untrusted_cases chain) [
    | inr (b, e, (left, right, q, u, t)) ↦ inr (b, rw e refl, (a ∷ left, right, ap (a ∷◌) q, u, t))
    | inl (e, all) ↦ elim (Bool-cases (trusted_addr p a)) [
      | inl y ↦ inl (rw (e, y) refl, (y, all))
      | inr n ↦ inr (a, rw (e, n) refl, ([], chain, refl, n, all))
    ]
  ]

  picked :
      (r : Request) {o : Option p.Address} {chain : List p.Address}
      → last_untrusted p (forwarded_chain p r) ≡ o
      → forwarded_chain p r ≡ chain
      → remote_addr p r ≡ chosen p o chain (own_addr p r.remote)
  unfolding remote_addr
  picked r e q = ap₂ (λ o c. chosen p o c (own_addr p r.remote)) e q

  -- RemoteAddr gives the last hop outside the trusted ranges; if there is none, the first hop; and
  -- without hops the request's own address.
  remote_addr_cases :
      (r : Request)
      → ((a : p.Address) × EndsAt a (forwarded_chain p r) × (remote_addr p r ≡ p.print a))
        ⊎ (All (λ b. trusted_addr p b ≡ true) (forwarded_chain p r)
            × (((a : p.Address) × (chain : List p.Address) × (forwarded_chain p r ≡ a ∷ chain)
                  × (remote_addr p r ≡ p.print a))
                ⊎ ((forwarded_chain p r ≡ []) × (remote_addr p r ≡ own_addr p r.remote))))
  remote_addr_cases r = elim (last_untrusted_cases (forwarded_chain p r)) [
    | inr (a, e, ends) ↦ inl (a, ends, picked r e refl)
    | inl (e, all) ↦ inr (
      all,
      elim (list_cases (forwarded_chain p r)) [
        | inl z ↦ inr (z, picked r e z)
        | inr (a, chain, q) ↦ inl (a, chain, q, picked r e q)
      ],
    )
  ]

  or_skip-append :
      (o : Option p.Address) (xs ys : List p.Address)
      → or_skip p o (xs ++ ys) ≡ or_skip p o xs ++ ys
  or_skip-append none xs ys = refl
  or_skip-append (some a) xs ys = refl

  found-append :
      (parse : Text → Option p.Address) (ts us : List Text)
      → found p parse (ts ++ us) ≡ found p parse ts ++ found p parse us
  found-append parse [] us = refl
  found-append parse (t ∷ ts) us =
      ap (or_skip p (parse t)) (found-append parse ts us)
      ∙ or_skip-append (parse t) (found p parse ts) (found p parse us)

  last_untrusted-end :
      (chain : List p.Address) (a : p.Address)
      → trusted_addr p a ≡ false
      → last_untrusted p (chain ++ (a ∷ [])) ≡ some a
  unfolding last_untrusted
  last_untrusted-end [] a u = rw u refl
  last_untrusted-end (b ∷ chain) a u = rw (last_untrusted-end chain a u) refl

  -- Without a Forwarded header, when the one X-Forwarded-For header is any text of the client, a
  -- comma and a value without one, and that value is an address outside the trusted ranges,
  -- RemoteAddr gives that address, whatever the client wrote.
  pub remote_addr-appended :
      (client seen : Text) (a : p.Address) (remote : Text)
      → has_byte b',' seen ≡ false
      → parse_forwarded_addr p seen ≡ some a
      → trusted_addr p a ≡ false
      → remote_addr p (record {
        forwarded = [];
        x_forwarded_for = (client ++ (b',' ∷ seen)) ∷ [];
        remote = remote;
      })
        ≡ p.print a
  unfolding remote_addr forwarded_chain forwarded_headers x_forwarded_headers
  remote_addr-appended client seen a remote plain e u =
      let before = found p (parse_forwarded_addr p) (split b',' client) in
      let pieces =
        split-append b',' client seen ∙ ap (split b',' client ++◌) (split_one b',' seen plain) in
      let chain =
        append-nil (found p (parse_forwarded_addr p) (split b',' (client ++ (b',' ∷ seen))))
        ∙ ap (found p (parse_forwarded_addr p)) pieces
        ∙ found-append (parse_forwarded_addr p) (split b',' client) (seen ∷ [])
        ∙ ap (λ o. before ++ or_skip p o []) e in
      ap₂ (λ o c. chosen p o c (own_addr p remote))
        (ap (last_untrusted p) chain ∙ last_untrusted-end before a u) refl
