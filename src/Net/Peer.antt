-- ===== src/Net/Peer.antt =====
-- When two packets come from the same peer (net.c).
use gcfflashero.Base.{
  ℕ, zero, suc, ◌+◌, ◌≤◌, ◌<◌, ◌≡◌, refl, sym, ◌∙◌, arith, Bool, true, false, ◌&&◌, List, ◌==◌,
  get_or, subst, if◌then◌else◌, Bool-cases, inl, inr,
}
use gcfflashero.Net.{Client, same_octets, addr_len, is_client}

-- The same port, kind of address, and octets of that kind.
pub record SamePeer (a b : Client) : Type 0 where
  pub port : a.port ≡ b.port
  pub af : a.addr.af ≡ b.addr.af
  pub octets :
      (j : ℕ) → j < addr_len a.addr.af → get_or a.addr.octets j 0 ≡ get_or b.addr.octets j 0

pub SamePeer-sym : (a b : Client) → SamePeer a b → SamePeer b a
SamePeer-sym a b s = record {
  port = sym s.port;
  af = sym s.af;
  octets = λ j inside. sym (s.octets j (subst (λ k. j < addr_len k) (sym s.af) inside));
}

pub SamePeer-trans : (a b c : Client) → SamePeer a b → SamePeer b c → SamePeer a c
SamePeer-trans a b c s t = record {
  port = s.port ∙ t.port;
  af = s.af ∙ t.af;
  octets = λ j inside. s.octets j inside ∙ t.octets j (subst (λ k. j < addr_len k) s.af inside);
}

pub SamePeer-refl : (a : Client) → SamePeer a a
SamePeer-refl a = record { port = refl; af = refl; octets = λ j inside. refl }

both : (a b : Bool) → (if a then b else false) ≡ true → (a ≡ true) × (b ≡ true)
both true b e = (refl, e)
both false b e = absurd (ground (arith, e))

conj : (a b : Bool) → (a && b) ≡ true → (a ≡ true) × (b ≡ true)
conj true b e = (refl, e)
conj false b e = absurd (ground (arith, e))

same_octets→ :
    (left j : ℕ) (a b : List ℕ)
    → same_octets left j a b ≡ true
    → (i : ℕ) → j ≤ i
    → i < j + left
    → get_or a i 0 ≡ get_or b i 0
unfolding same_octets
same_octets→ zero j a b e i from inside = absurd (omega arith)
same_octets→ (suc left) j a b e i from inside =
    let (here, later) = both (get_or a j 0 == get_or b j 0) (same_octets left (j + 1) a b) e in
    elim (Bool-cases (i == j)) [
      | inl eq ↦
          let at : i ≡ j = ground arith in
          let equal : get_or a j 0 ≡ get_or b j 0 = ground arith in
          subst (λ k. get_or a k 0 ≡ get_or b k 0) (sym at) equal
      | inr ne ↦ same_octets→ left (j + 1) a b later i (ground arith) (omega arith)
    ]

→same_octets :
    (left j : ℕ) (a b : List ℕ)
    → ((i : ℕ) → j ≤ i → i < j + left → get_or a i 0 ≡ get_or b i 0)
    → same_octets left j a b ≡ true
unfolding same_octets
→same_octets zero j a b same = refl
→same_octets (suc left) j a b same =
    let here : (get_or a j 0 == get_or b j 0) ≡ true = ground (arith, same j) in
    rw here (→same_octets left (j + 1) a b (λ i from inside. same i (omega arith) (omega arith)))

-- The comparison of netCheckNewClient tells.
pub is_client→ : (peer client : Client) → is_client peer client ≡ true → SamePeer peer client
is_client→ peer client e =
    let (ends, octets) =
      conj (peer.port == client.port && peer.addr.af == client.addr.af)
        (same_octets (addr_len client.addr.af) 0 peer.addr.octets client.addr.octets) e in
    let (ports, afs) = conj (peer.port == client.port) (peer.addr.af == client.addr.af) ends in
    let port : peer.port ≡ client.port = ground arith in
    let af : peer.addr.af ≡ client.addr.af = ground arith in
    record {
      port = port;
      af = af;
      octets = λ j inside.
          same_octets→ (addr_len client.addr.af) 0 peer.addr.octets client.addr.octets octets j
            (omega arith) (subst (λ k. j < 0 + addr_len k) af (omega arith));
    }

pub →is_client : (peer client : Client) → SamePeer peer client → is_client peer client ≡ true
→is_client peer client s =
    let ports : (peer.port == client.port) ≡ true = ground (arith, s.port) in
    let afs : (peer.addr.af == client.addr.af) ≡ true = ground (arith, s.af) in
    let octets : same_octets (addr_len client.addr.af) 0 peer.addr.octets client.addr.octets
        ≡ true =
      →same_octets (addr_len client.addr.af) 0 peer.addr.octets client.addr.octets
        (λ i from inside. s.octets i (subst (λ k. i < addr_len k) (sym s.af) (omega arith))) in
    rw (ports, afs, octets) refl
