-- ===== src/RateLimit/Client/Spoofing.antt =====
-- A client cannot choose the address that it is limited by.
use mathlib.Core.List.{reverse, reverse-append}
use yomochi.Base.{
  Bool, false, not, ◌≡◌, refl, ap, ◌∙◌, inl, inr, some, List, [], ◌∷◌, ◌++◌, map, select, find,
  Bool-cases, if◌then◌else◌,
}
use yomochi.Text.{Text, strip, is_empty}
use yomochi.Text.Split.{split-append}
use yomochi.RateLimit.Client.{
  HttpScope, hops, walk_hops, forwarded_for, forwarded_ip, peer_or_forwarded, client_ip,
}

module _ {ℓ} {A : Type ℓ} (p : A → Bool) where
  select-append : (xs ys : List A) → select p (xs ++ ys) ≡ select p xs ++ select p ys
  select-append [] ys = refl
  select-append (x ∷ xs) ys = elim (Bool-cases (p x)) [
    | inl e ↦ rw (e, select-append xs ys)
    | inr e ↦ rw (e, select-append xs ys)
  ]

  find-append : (xs ys : List A) {a : A} → find p xs ≡ some a → find p (xs ++ ys) ≡ some a
  find-append [] ys e = cc
  find-append (x ∷ xs) ys e = elim (Bool-cases (p x)) [
    | inl h ↦ rw h (rw h at e)
    | inr h ↦ rw h (find-append xs ys (rw h at e))
  ]

map-append-strip : (xs ys : List Text) → map strip (xs ++ ys) ≡ map strip xs ++ map strip ys
map-append-strip [] ys = refl
map-append-strip (x ∷ xs) ys = rw (map-append-strip xs ys)

-- What is put before the header is so many more hops on the left.
hops-append : (s t : Text) → hops (s ++ (b',' ∷ t)) ≡ hops s ++ hops t
unfolding hops
hops-append s t = rw (split-append b',' s t, map-append-strip, select-append)

walk-find :
    (is_trusted : Text → Bool) (peer : Text) (parts : List Text) {a : Text}
    → find (λ p. not (is_trusted p)) (reverse parts) ≡ some a
    → walk_hops is_trusted peer parts ≡ a
unfolding walk_hops
walk-find is_trusted peer [] e = cc
walk-find is_trusted peer (x ∷ xs) e = rw (walk_hops, e)

walk-append :
    (is_trusted : Text → Bool) (peer : Text) (xs ys : List Text) {a : Text}
    → find (λ p. not (is_trusted p)) (reverse ys) ≡ some a
    → walk_hops is_trusted peer (xs ++ ys) ≡ a
walk-append is_trusted peer xs ys e =
    walk-find is_trusted peer (xs ++ ys)
      (rw reverse-append (find-append (λ p. not (is_trusted p)) (reverse ys) (reverse xs) e))

module _ {Network : Type 0} (in_networks : List Network → Text → Bool) where
  -- A caller whose requests arrive with a forwarded header cannot choose the address that it is
  -- limited by. From a peer that is not trusted the address is the peer's. From a trusted one it
  -- is the last hop that is not trusted, when the part of the header that the proxies wrote has
  -- one, whatever the caller itself put before that part.
  pub client_ip_unforgeable :
      (scope : HttpScope) (network : Network) (networks : List Network)
      (peer_ip forged real hop : Text)
      → scope.client ≡ some peer_ip
      → is_empty peer_ip ≡ false
      → forwarded_for scope.headers ≡ some (forged ++ (b',' ∷ real))
      → find (λ p. not (in_networks (network ∷ networks) p)) (reverse (hops real)) ≡ some hop
      → client_ip in_networks scope (network ∷ networks)
        ≡ some (if in_networks (network ∷ networks) peer_ip then hop else peer_ip)
  unfolding client_ip peer_or_forwarded forwarded_ip
  client_ip_unforgeable scope network networks peer_ip forged real hop c e f h =
      let is_trusted = in_networks (network ∷ networks) in
      let walked =
        ap (walk_hops is_trusted peer_ip) (hops-append forged real)
        ∙ walk-append is_trusted peer_ip (hops forged) (hops real) h in
      elim (Bool-cases (is_trusted peer_ip)) [
        | inl yes_trusted ↦ rw (c, e, yes_trusted, f) (ap some walked)
        | inr untrusted ↦ rw (c, e, untrusted)
      ]
