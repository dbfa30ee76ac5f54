-- ===== src/Cli/Banner/Address.antt =====
-- internal/cli/run.go: the address that the banner shows.
use pi_live_captions.Base.{
  [], ◌∷◌, ◌++◌, append_assoc, false, ◌||◌, none, some, ◌≡◌, refl, sym, ap, ◌∙◌, Text, codes, ◌==◌,
  if_cases, arith,
}
use pi_live_captions.Cli.Banner.{
  has_char, split_last, bracketed, host_of, split_host_port, join_host_port, shown_host,
  browser_url,
}

-- A name or a number of a host, without brackets.
abbrev pub IsHost : Text → Type 0
IsHost host = (has_char b'[' host ≡ false) × (has_char b']' host ≡ false)

abbrev pub IsPort : Text → Type 0
IsPort port =
    (has_char b':' port ≡ false) × (has_char b'[' port ≡ false) × (has_char b']' port ≡ false)

split_last-none : (p : Text) → has_char b':' p ≡ false → split_last p ≡ none
unfolding split_last
split_last-none [] h = refl
split_last-none (c ∷ cs) h =
    rw (split_last-none cs (ground arith))
      (if_cases (λ x. x ≡ none) (c == b':') (λ e. absurd (ground arith)) (λ e. refl))

split_last-append :
    (h p : Text) → has_char b':' p ≡ false → split_last (h ++ b':' ∷ p) ≡ some (h, p)
unfolding split_last
split_last-append [] p e = rw (split_last-none p e) refl
split_last-append (c ∷ cs) p e = rw (split_last-append cs p e) refl

bracketed-append : (h : Text) → has_char b']' h ≡ false → bracketed (h ++ b']' ∷ []) ≡ some h
unfolding bracketed
bracketed-append [] e = refl
bracketed-append (c ∷ cs) e =
    rw (bracketed-append cs (ground arith))
      (if_cases (λ x. x ≡ some (c ∷ cs)) (c == b']') (λ f. absurd (ground arith)) (λ f. refl))

host_of-brackets : (h : Text) → IsHost h → host_of (b'[' ∷ (h ++ b']' ∷ [])) ≡ some h
unfolding host_of
host_of-brackets h (a, b) = rw (bracketed-append h b, a) refl

host_of-plain : (h : Text) → IsHost h → has_char b':' h ≡ false → host_of h ≡ some h
unfolding host_of
host_of-plain [] v e = refl
host_of-plain (c ∷ cs) (a, b) e =
    if_cases (λ x. x ≡ some (c ∷ cs)) (c == b'[') (λ f. absurd (ground arith))
      (λ f. rw (e, a, b) refl)

-- Splitting what was joined.
split_host_port-join_host_port :
    (host port : Text)
    → IsHost host
    → IsPort port
    → split_host_port (join_host_port host port) ≡ some (host, port)
unfolding split_host_port join_host_port
split_host_port-join_host_port host port v (c, l, r) =
    if_cases (λ x. split_host_port x ≡ some (host, port)) (has_char b':' host || has_char b'%' host)
      (λ h.
        ap (λ x. split_host_port (b'[' ∷ x)) (sym (append_assoc host (b']' ∷ []) (b':' ∷ port)))
        ∙ split (b'[' ∷ (host ++ b']' ∷ [])) (host_of-brackets host v))
      (λ h. split host (host_of-plain host v (ground arith)))
  where
    split :
        (x : Text) → host_of x ≡ some host → split_host_port (x ++ b':' ∷ port) ≡ some (host, port)
    split x e = rw (split_last-append x port c, e, l, r) refl

-- A listen address of a host without brackets and of a port without colons and brackets is shown as
-- the link to that port of the same host, in brackets where it has a colon; but to this machine
-- where the host is empty or the wildcard of IPv4 or IPv6.
pub browser_url-join_host_port :
    (host port : Text)
    → IsHost host
    → IsPort port
    → browser_url (join_host_port host port)
      ≡ codes "http://" ++ join_host_port (shown_host host) port
unfolding browser_url
browser_url-join_host_port host port v w =
    rw (browser_url, split_host_port-join_host_port host port v w) refl
