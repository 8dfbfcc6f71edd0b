-- ===== src/Command/Listen.antt =====
-- cmd/nexus-proxy/main.go: the addresses that validateListenAddress accepts.
use dappnode_nexus_sdk.Prelude.{
  ℕ, ◌≤◌, true, false, not, Option, none, some, ◌≡◌, refl, sym, ◌∙◌, if_true, if_false, ◌⊎◌, inl,
  inr, ◌↔◌, arith, Bool-cases, passed_not,
}
use dappnode_nexus_sdk.Prelude.Bytes.{Bytes, bytes_eq, bytes_eq_iff}
use dappnode_nexus_sdk.Prelude.Result.{Result, ok, reject_then}
use dappnode_nexus_sdk.Prelude.Time.{ℤ, pos, negsuc}
use dappnode_nexus_sdk.Command.{
  ListenError, not_loopback, not_unspecified, bad_port, Net, loopback, dappnode, bad_port_number,
  check_port, check_scope, check_ip, check_address, validate_listen_address,
}

module _ {Ip : Type 0} (net : Net Ip) where
  -- The scope and the address agree: loopback for the host alone, unspecified for Dappnode.
  abbrev InScope : Bytes → Ip → Type 0
  InScope scope ip =
      ((scope ≡ loopback) × (net.is_loopback ip ≡ true))
      ⊎ ((scope ≡ dappnode) × (net.is_unspecified ip ≡ true))

  pub record Listens (address scope : Bytes) : Type 0 where
    pub host : Bytes
    pub port : Bytes
    pub ip : Ip
    pub number : ℕ
    pub split : net.split_host_port address ≡ some (host, port)
    pub numeric : net.parse_ip host ≡ some ip
    pub in_scope : InScope scope ip
    pub decimal : net.atoi port ≡ some (pos number)
    pub nonzero : 1 ≤ number
    pub bounded : number ≤ 65535

  record IsPort (o : Option ℤ) : Type 0 where
    number : ℕ
    decimal : o ≡ some (pos number)
    nonzero : 1 ≤ number
    bounded : number ≤ 65535

  check_port_sound : (o : Option ℤ) → check_port o ≡ ok tt → IsPort o
  check_port_sound none h = absurd (cc)
  check_port_sound (some (negsuc n)) h = absurd (cc)
  check_port_sound (some (pos n)) h =
      reject_then (bad_port_number (pos n)) bad_port (ok tt) h λ good _. record {
        number = n;
        decimal = refl;
        nonzero = ground arith;
        bounded = ground arith;
      }

  check_scope_sound :
      (scope : Bytes) (ip : Ip) (rest : Result ListenError Unit)
      → check_scope net scope ip rest ≡ ok tt
      → InScope scope ip × (rest ≡ ok tt)
  check_scope_sound scope ip rest h = elim (Bool-cases (bytes_eq scope loopback)) [
    | inl t ↦
        reject_then (not (net.is_loopback ip)) not_loopback rest (sym (if_true _ _ _ t) ∙ h)
          λ a b. (inl ((bytes_eq_iff scope loopback).0 t, passed_not a), b)
    | inr t ↦
        let h1 = sym (if_false _ _ _ t) ∙ h in
        elim (Bool-cases (bytes_eq scope dappnode)) [
          | inl u ↦
              reject_then (not (net.is_unspecified ip)) not_unspecified rest
                (sym (if_true _ _ _ u) ∙ h1)
                λ a b. (inr ((bytes_eq_iff scope dappnode).0 u, passed_not a), b)
          | inr u ↦ absurd (let h2 = sym (if_false _ _ _ u) ∙ h1 in cc)
        ]
  ]

  check_ip_sound :
      (address scope host port : Bytes) (o : Option Ip)
      → net.split_host_port address ≡ some (host, port)
      → net.parse_ip host ≡ o
      → check_ip net scope port o ≡ ok tt
      → Listens address scope
  check_ip_sound address scope host port none s e h = absurd (cc)
  check_ip_sound address scope host port (some ip) s e h =
      let (scoped, rest) = check_scope_sound scope ip (check_port (net.atoi port)) h in
      let p = check_port_sound (net.atoi port) rest in
      record {
        host = host;
        port = port;
        ip = ip;
        number = p.number;
        split = s;
        numeric = e;
        in_scope = scoped;
        decimal = p.decimal;
        nonzero = p.nonzero;
        bounded = p.bounded;
      }

  check_address_sound :
      (address scope : Bytes) (o : Option (Bytes × Bytes))
      → net.split_host_port address ≡ o
      → check_address net scope o ≡ ok tt
      → Listens address scope
  check_address_sound address scope none e h = absurd (cc)
  check_address_sound address scope (some (host, port)) e h =
      check_ip_sound address scope host port (net.parse_ip host) e refl h

  check_scope_complete :
      (scope : Bytes) (ip : Ip) → InScope scope ip → check_scope net scope ip (ok tt) ≡ ok tt
  unfolding bytes_eq
  check_scope_complete scope ip (inl (e, l)) = rw (e, l) refl
  check_scope_complete scope ip (inr (e, u)) = rw (e, u) refl

  validate_listen_address_complete :
      (address scope : Bytes)
      → Listens address scope
      → validate_listen_address net address scope ≡ ok tt
  unfolding validate_listen_address
  validate_listen_address_complete address scope l =
      let good : bad_port_number (pos l.number) ≡ false = ground (arith, l.nonzero, l.bounded) in
      rw (l.split, l.numeric, l.decimal, good) (check_scope_complete scope l.ip l.in_scope)

  -- A listen address is accepted exactly when it is a numeric IP address that its scope allows, a
  -- loopback address or the unspecified one, and a port from 1 to 65535.
  pub validate_listen_address_iff :
      (address scope : Bytes)
      → (validate_listen_address net address scope ≡ ok tt) ↔ Listens address scope
  unfolding validate_listen_address
  validate_listen_address_iff address scope = (
    check_address_sound address scope (net.split_host_port address) refl,
    validate_listen_address_complete address scope,
  )
