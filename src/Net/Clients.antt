-- ===== src/Net/Clients.antt =====
-- The table of clients of net.c: what an id stands for.
use gcfflashero.Base.{
  ℕ, zero, suc, ◌+◌, ◌≤◌, ◌≡◌, refl, sym, ap, ◌∙◌, arith, Option, none, some, List, [], ◌∷◌, ◌++◌,
  append-nil, append_assoc, length, length-append, ltb, subst, if_cases, ◌↔◌,
}
use gcfflashero.Net.{
  Client, Net, max_net_clients, is_client, find_client, new_client, check_new_client,
}
use gcfflashero.Net.Peer.{
  SamePeer, SamePeer-sym, SamePeer-trans, SamePeer-refl, is_client→, →is_client,
}

-- The client with the id `i`.
abbrev pub At : List Client → ℕ → Client → Type 0
At [] i c = ⊥
At (x ∷ xs) zero c = x ≡ c
At (x ∷ xs) (suc i) c = At xs i c

abbrev pub NotIn : Client → List Client → Type 0
NotIn peer [] = Unit
NotIn peer (c ∷ cs) = (¬ SamePeer peer c) × NotIn peer cs

-- No peer is listed twice.
abbrev pub Distinct : List Client → Type 0
Distinct [] = Unit
Distinct (c ∷ cs) = NotIn c cs × Distinct cs

pub record IsTable (net : Net) : Type 0 where
  pub size : length net.clients ≤ max_net_clients
  pub distinct : Distinct net.clients

abbrev Extends : List Client → List Client → Type 0
Extends cs cs' = (more : List Client) × (cs' ≡ cs ++ more)

-- An id names the peer that it was given to; none is given when the table is full of others.
abbrev pub Names : List Client → Client → Option ℕ → Type 0
Names cs peer none = NotIn peer cs × (length cs ≡ max_net_clients)
Names cs peer (some i) = (c : Client) × At cs i c × SamePeer peer c

abbrev Found : Client → List Client → ℕ → Option ℕ → Type 0
Found peer cs i none = NotIn peer cs
Found peer cs i (some k) = (j : ℕ) × (k ≡ i + j) × (c : Client) × At cs j c × SamePeer peer c

later_Found :
    (peer c : Client) (cs : List Client) (i : ℕ) (o : Option ℕ)
    → ¬ SamePeer peer c
    → Found peer cs (i + 1) o
    → Found peer (c ∷ cs) i o
later_Found peer c cs i none other found = (other, found)
later_Found peer c cs i (some k) other (j, e, d, there, same) = (suc j, omega arith, d, there, same)

find_client-Found :
    (peer : Client) (cs : List Client) (i : ℕ) → Found peer cs i (find_client peer cs i)
unfolding find_client
find_client-Found peer [] i = tt
find_client-Found peer (c ∷ cs) i =
    if_cases (Found peer (c ∷ cs) i) (is_client peer c) (some i) (find_client peer cs (i + 1))
      (λ e. (0, omega arith, c, refl, is_client→ peer c e))
      (λ e.
        later_Found peer c cs i (find_client peer cs (i + 1))
          (λ s. absurd (ground (arith, e, →is_client peer c s)))
          (find_client-Found peer cs (i + 1)))

NotIn-snoc :
    (peer c : Client) (cs : List Client)
    → NotIn peer cs
    → ¬ SamePeer peer c
    → NotIn peer (cs ++ c ∷ [])
NotIn-snoc peer c [] out other = (other, tt)
NotIn-snoc peer c (d ∷ cs) out other = (out.0, NotIn-snoc peer c cs out.1 other)

Distinct-snoc :
    (cs : List Client) (peer : Client) → Distinct cs → NotIn peer cs → Distinct (cs ++ peer ∷ [])
Distinct-snoc [] peer d out = (tt, tt)
Distinct-snoc (c ∷ cs) peer d out =
    (NotIn-snoc c peer cs d.0 (λ s. out.0 (SamePeer-sym c peer s)), Distinct-snoc cs peer d.1 out.1)

At-append : (cs more : List Client) (i : ℕ) (c : Client) → At cs i c → At (cs ++ more) i c
At-append [] more i c there = absurd there
At-append (x ∷ cs) more zero c there = there
At-append (x ∷ cs) more (suc i) c there = At-append cs more i c there

At-last : (cs : List Client) (c : Client) → At (cs ++ c ∷ []) (length cs) c
At-last [] c = refl
At-last (x ∷ cs) c = At-last cs c

At-unique : (cs : List Client) (i : ℕ) (c d : Client) → At cs i c → At cs i d → c ≡ d
At-unique [] i c d there there' = absurd there
At-unique (x ∷ cs) zero c d there there' = sym there ∙ there'
At-unique (x ∷ cs) (suc i) c d there there' = At-unique cs i c d there there'

NotIn-At :
    (peer : Client) (cs : List Client) (i : ℕ) (c : Client)
    → NotIn peer cs
    → At cs i c
    → ¬ SamePeer peer c
NotIn-At peer [] i c out there = absurd there
NotIn-At peer (x ∷ cs) zero c out there = subst (λ t. ¬ SamePeer peer t) there out.0
NotIn-At peer (x ∷ cs) (suc i) c out there = NotIn-At peer cs i c out.1 there

-- Ids of the same peer are the same.
Distinct-At :
    (cs : List Client) (i j : ℕ) (c d : Client)
    → Distinct cs
    → At cs i c
    → At cs j d
    → SamePeer c d
    → i ≡ j
Distinct-At [] i j c d distinct at_i at_j same = absurd at_i
Distinct-At (x ∷ cs) zero zero c d distinct at_i at_j same = refl
Distinct-At (x ∷ cs) zero (suc j) c d distinct at_i at_j same =
    absurd (NotIn-At x cs j d distinct.0 at_j (subst (λ t. SamePeer t d) (sym at_i) same))
Distinct-At (x ∷ cs) (suc i) zero c d distinct at_i at_j same =
    absurd
      (NotIn-At x cs i c distinct.0 at_i (SamePeer-sym c x (subst (SamePeer c) (sym at_j) same)))
Distinct-At (x ∷ cs) (suc i) (suc j) c d distinct at_i at_j same =
    ap suc (Distinct-At cs i j c d distinct.1 at_i at_j same)

pub record Assigned (peer : Client) (net : Net) (r : Net × Option ℕ) : Type 0 where
  pub table : IsTable r.0
  pub extends : Extends net.clients r.0.clients
  pub names : Names r.0.clients peer r.1

new_client-Assigned :
    (peer : Client) (net : Net) (o : Option ℕ)
    → IsTable net
    → Found peer net.clients 0 o
    → Assigned peer net (new_client peer net o)
new_client-Assigned peer net (some k) h (j, e, c, there, same) = record {
  table = h;
  extends = ([], sym (append-nil net.clients));
  names = (c, subst (λ n. At net.clients n c) (omega arith) there, same);
}
new_client-Assigned peer net none h out =
    let grown : Net = record { clients = net.clients ++ peer ∷ [] } in
    if_cases (Assigned peer net) (ltb (length net.clients) max_net_clients)
      (grown, some (length net.clients)) (net, none)
      (λ e. record {
        table = record {
          size = ground (arith, e, length-append {0} net.clients (peer ∷ []));
          distinct = Distinct-snoc net.clients peer h.distinct out;
        };
        extends = (peer ∷ [], refl);
        names = (peer, At-last net.clients peer, SamePeer-refl peer);
      })
      (λ e. record {
        table = h;
        extends = ([], sym (append-nil net.clients));
        names = (out, ground (arith, e, h.size));
      })

-- In a sound table, of at most four different peers, netCheckNewClient keeps the clients there are
-- and the table sound. The id it returns names the peer of the packet; -1 it returns only where the
-- table is full of other peers.
pub check_new_client-Assigned :
    (peer : Client) (net : Net) → IsTable net → Assigned peer net (check_new_client peer net)
check_new_client-Assigned peer net h =
    new_client-Assigned peer net (find_client peer net.clients 0) h
      (find_client-Found peer net.clients 0)

-- The packets of the peers of the list, one after the other.
abbrev pub check_all : List Client → Net → Net
check_all [] net = net
check_all (peer ∷ peers) net = check_all peers (check_new_client peer net).0

pub check_all-IsTable :
    (peers : List Client) (net : Net)
    → IsTable net
    → IsTable (check_all peers net) × Extends net.clients (check_all peers net).clients
check_all-IsTable [] net h = (h, ([], sym (append-nil net.clients)))
check_all-IsTable (peer ∷ peers) net h =
    let one = check_new_client-Assigned peer net h in
    let (more, grown) = one.extends in
    let (kept, (rest, grown')) = check_all-IsTable peers (check_new_client peer net).0 one.table in
    (
      kept,
      (more ++ rest, grown' ∙ ap (λ cs. cs ++ rest) grown ∙ append_assoc net.clients more rest),
    )

named :
    (cs : List Client) (peer : Client) (o : Option ℕ) (i : ℕ)
    → Names cs peer o
    → o ≡ some i
    → (c : Client) × At cs i c × SamePeer peer c
named cs peer o i names e = subst (Names cs peer) e names

-- Two packets that are given ids, from a sound table on and with any packets between them, are
-- given the same id exactly if they come from the same peer.
pub check_new_client_same_id :
    (net : Net) (p q : Client) (between : List Client) (i j : ℕ)
    → IsTable net
    → (check_new_client p net).1 ≡ some i
    → (check_new_client q (check_all between (check_new_client p net).0)).1 ≡ some j
    → (i ≡ j) ↔ SamePeer p q
check_new_client_same_id net p q between i j h first second =
    let net1 = (check_new_client p net).0 in
    let net2 = check_all between net1 in
    let net3 = (check_new_client q net2).0 in
    let one = check_new_client-Assigned p net h in
    let (kept, (more, grown)) = check_all-IsTable between net1 one.table in
    let two = check_new_client-Assigned q net2 kept in
    let (more', grown') = two.extends in
    let (c, at_i, same_p) = named net1.clients p (check_new_client p net).1 i one.names first in
    let (d, at_j, same_q) = named net3.clients q (check_new_client q net2).1 j two.names second in
    let stays : At net2.clients i c =
      subst (λ cs. At cs i c) (sym grown) (At-append net1.clients more i c at_i) in
    let still : At net3.clients i c =
      subst (λ cs. At cs i c) (sym grown') (At-append net2.clients more' i c stays) in
    (
      λ e.
          let one_client =
            At-unique net3.clients j c d (subst (λ k. At net3.clients k c) e still) at_j in
          SamePeer-trans p c q same_p
            (subst (λ t. SamePeer t q) (sym one_client) (SamePeer-sym q d same_q)),
      λ s.
          Distinct-At net3.clients i j c d two.table.distinct still at_j
            (SamePeer-trans c p d (SamePeer-sym p c same_p) (SamePeer-trans p q d s same_q)),
    )
