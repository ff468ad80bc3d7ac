-- ===== src/Dns/Answered.antt =====
-- About `localTailnetDNSAnswer` of dns_local.go: where the addresses come from.
use womprat.Base.{
  Bytes, codes, Bool, true, false, not, ◌&&◌, ◌||◌, Option, none, some, List, [], ◌∷◌, ◌++◌, ◌==◌,
  ◌!=◌, bytes_eq, eqb_iff, All, All-append, All-imp, Elem, here, there, Bool-cases, Option-cases,
  ◌≡◌, refl, sym, subst, ◌⊎◌, inl, inr, arith,
}
use womprat.Platform.{Platform, Addr}
use womprat.Dns.Defs.{
  Node, ExtraRecord, NetworkMap, unknown_name, unsupported_type, bad_name, message,
  single_addresses, of_type, bare_name, names_node, node_addresses, names_record, record_addresses,
  local_tailnet_dns_answer,
}

-- A address of version 4 for A, of version 6 for AAAA.
abbrev pub IsTyped : Bytes → Addr → Type 0
IsTyped record_type ip =
    ((record_type ≡ codes "A") × (ip.is_6 ≡ false))
    ⊎ ((record_type ≡ codes "AAAA") × (ip.is_6 ≡ true))

typed :
    (record_type : Bytes) (ip : Addr)
    → (record_type == codes "A" && not ip.is_6 || record_type == codes "AAAA" && ip.is_6) ≡ true
    → IsTyped record_type ip
typed record_type ip q =
    ground (arith, q, eqb_iff record_type (codes "A"), eqb_iff record_type (codes "AAAA"))

message-inj : (x y : Bytes) (l r : List Addr) → message x l ≡ message y r → (x ≡ y) × (l ≡ r)
message-inj x y l r e = (cc, cc)

singles : (l : List (Addr × Bool)) → All (λ ip. Elem (ip, true) l) (single_addresses l)
singles [] = tt
singles ((ip, true) ∷ l) = (
  here refl,
  All-imp (λ x. Elem (x, true) l) (λ x. Elem (x, true) ((ip, true) ∷ l)) (single_addresses l)
      (λ x e. there e) (singles l),
)
singles ((ip, false) ∷ l) =
    All-imp (λ x. Elem (x, true) l) (λ x. Elem (x, true) ((ip, false) ∷ l)) (single_addresses l)
      (λ x e. there e) (singles l)

of_type-IsTyped :
    (P : Addr → Type 0) (record_type : Bytes) (ips : List Addr)
    → All P ips
    → All (λ ip. P ip × IsTyped record_type ip) (of_type record_type ips)
unfolding of_type
of_type-IsTyped P record_type [] h = tt
of_type-IsTyped P record_type (ip ∷ ips) h =
    elim (Bool-cases
      (record_type == codes "A" && not ip.is_6 || record_type == codes "AAAA" && ip.is_6)) [
        | inr q ↦ rw (of_type, q) (of_type-IsTyped P record_type ips h.1)
        | inl q ↦
            rw (of_type, q) ((h.0, typed record_type ip q), of_type-IsTyped P record_type ips h.1)
      ]

module _ (p : Platform) where
  -- A single address of a node with the name.
  abbrev FromNode : Bytes → List (Option Node) → Addr → Type 0
  FromNode clean nodes ip =
      (node : Node) × (Elem (some node) nodes)
      × (names_node p clean node ≡ true)
      × (Elem (ip, true) node.addresses)

  -- The value of an extra record with the name.
  abbrev FromRecord : Bytes → List ExtraRecord → Addr → Type 0
  FromRecord clean records ip =
      (r : ExtraRecord) × (Elem r records)
      × (names_record p clean r ≡ true)
      × (p.parse_addr r.value ≡ some ip)

  node_addresses-FromNode :
      (clean : Bytes) (nodes : List (Option Node))
      → All (FromNode clean nodes) (node_addresses p clean nodes).1
  unfolding node_addresses
  node_addresses-FromNode clean [] = tt
  node_addresses-FromNode clean (none ∷ nodes) =
      All-imp (FromNode clean nodes) (FromNode clean (none ∷ nodes))
        (node_addresses p clean nodes).1 (λ ip (node, e, named, at). (node, there e, named, at))
        (node_addresses-FromNode clean nodes)
  node_addresses-FromNode clean (some node ∷ nodes) =
      let rest =
        All-imp (FromNode clean nodes) (FromNode clean (some node ∷ nodes))
          (node_addresses p clean nodes).1 (λ ip (other, e, named, at). (other, there e, named, at))
          (node_addresses-FromNode clean nodes) in
      elim (Bool-cases (names_node p clean node)) [
        | inr q ↦ rw q rest
        | inl q ↦ rw q (
            All-append (FromNode clean (some node ∷ nodes)) (single_addresses node.addresses)
              (node_addresses p clean nodes).1
              (All-imp (λ ip. Elem (ip, true) node.addresses) (FromNode clean (some node ∷ nodes))
                (single_addresses node.addresses) (λ ip at. (node, here refl, q, at))
                (singles node.addresses))
              rest)
      ]

  record_addresses-FromRecord :
      (clean : Bytes) (records : List ExtraRecord)
      → All (FromRecord clean records) (record_addresses p clean records).1
  unfolding record_addresses
  record_addresses-FromRecord clean [] = tt
  record_addresses-FromRecord clean (r ∷ records) =
      let rest =
        All-imp (FromRecord clean records) (FromRecord clean (r ∷ records))
          (record_addresses p clean records).1
          (λ ip (other, e, named, value). (other, there e, named, value))
          (record_addresses-FromRecord clean records) in
      elim (Bool-cases (names_record p clean r)) [
        | inr q ↦ rw q rest
        | inl q ↦ elim (Option-cases (p.parse_addr r.value)) [
          | inl u ↦ rw (q, u) rest
          | inr (ip, u) ↦ rw (q, u) ((r, here refl, q, u), rest)
        ]
      ]

  -- An address that the network map gives to the name.
  abbrev pub IsKnown : NetworkMap → Bytes → Addr → Type 0
  IsKnown nm clean ip = (FromNode clean nm.nodes ip) ⊎ (FromRecord clean nm.extra_records ip)

  -- What the message of an answer is made of.
  answered :
      (names : Bytes → Bool) (nm : NetworkMap) (name record_type full : Bytes) (ips : List Addr)
      → local_tailnet_dns_answer p names (some nm) name record_type ≡ message full ips
      → (full ≡ bare_name p name ++ codes ".")
        × (ips
            ≡ of_type record_type (
                (node_addresses p (bare_name p name) nm.nodes).1
                ++ (record_addresses p (bare_name p name) nm.extra_records).1))
  unfolding local_tailnet_dns_answer
  answered names nm name record_type full ips e =
      let clean : Bytes = bare_name p name in
      elim (Bool-cases (
        not
          ((node_addresses p clean nm.nodes).0 || (record_addresses p clean nm.extra_records).0))) [
            | inl q ↦
                let bad : unknown_name ≡ message full ips = rw (local_tailnet_dns_answer, q) at e in
                cc
            | inr q ↦ elim (Bool-cases (record_type != codes "A" && record_type != codes "AAAA")) [
              | inl r ↦
                  let bad : unsupported_type ≡ message full ips =
                    rw (local_tailnet_dns_answer, q, r) at e in
                  cc
              | inr r ↦ elim (Bool-cases (not (names (clean ++ codes ".")))) [
                | inl t ↦
                    let bad : bad_name ≡ message full ips =
                      rw (local_tailnet_dns_answer, q, r, t) at e in
                    cc
                | inr t ↦ message-inj _ _ _ _ (sym (rw (local_tailnet_dns_answer, q, r, t) at e))
              ]
            ]
          ]

  -- A local answer is about the name that was asked for, in lower case and without its last dot, and
  -- holds only addresses that a node of that name or an extra record of that name has, of version 4
  -- for an A query and of version 6 for an AAAA query.
  pub local_tailnet_dns_answer-IsKnown :
      (names : Bytes → Bool) (nm : NetworkMap) (name record_type full : Bytes) (ips : List Addr)
      → local_tailnet_dns_answer p names (some nm) name record_type ≡ message full ips
      → (full ≡ bare_name p name ++ codes ".")
        × All (λ ip. (IsKnown nm (bare_name p name) ip) × (IsTyped record_type ip)) ips
  local_tailnet_dns_answer-IsKnown names nm name record_type full ips e =
      let clean : Bytes = bare_name p name in
      let found : List Addr =
        (node_addresses p clean nm.nodes).1 ++ (record_addresses p clean nm.extra_records).1 in
      let known : All (IsKnown nm clean) found =
        All-append (IsKnown nm clean) (node_addresses p clean nm.nodes).1
          (record_addresses p clean nm.extra_records).1
          (All-imp (FromNode clean nm.nodes) (IsKnown nm clean) (node_addresses p clean nm.nodes).1
            (λ ip h. inl h) (node_addresses-FromNode clean nm.nodes))
          (All-imp (FromRecord clean nm.extra_records) (IsKnown nm clean)
            (record_addresses p clean nm.extra_records).1 (λ ip h. inr h)
            (record_addresses-FromRecord clean nm.extra_records)) in
      let same = answered names nm name record_type full ips e in
      (
        same.0,
        subst (All (λ ip. (IsKnown nm clean ip) × (IsTyped record_type ip))) (sym same.1)
            (of_type-IsTyped (IsKnown nm clean) record_type found known),
      )
