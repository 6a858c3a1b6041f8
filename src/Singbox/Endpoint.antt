-- ===== src/Singbox/Endpoint.antt =====
-- convert/singbox/endpoint.go: the WireGuard endpoint of a device.
use singboxconfig.Prelude.{
  Str, Bool, true, false, not, ◌&&◌, ◌||◌, List, [], ◌∷◌, ◌++◌, Option, none, some, ◌≡◌, refl,
  arith, codes, equal, if◌then◌else◌, any, ◌∙◌, ap, ◌⊎◌, inl, inr,
}
use singboxconfig.Prelude.Int.{eqb_ℤ, ltb_ℤ}
use singboxconfig.Prelude.Sort.{Sorting, any-sort_slice}
use singboxconfig.Strings.{trim_space, is_empty, split, contains}
use singboxconfig.Entity.{Device, WireGuard, WireGuardPeer}
use singboxconfig.Entity.SingBox.{SingEndpointWireguard, SingEndpointWireguardPeer}

unfoldable pub normalize_wire_guard_client_addr : Str → Str
normalize_wire_guard_client_addr addr =
    let trimmed = trim_space addr in
    if is_empty trimmed
    then []
    else if contains trimmed (codes "/")
    then trimmed
    else trimmed ++ codes "/32"

-- the loop of `splitAllowedIPs`
trim_ips : List Str → List Str
trim_ips [] = []
trim_ips (part ∷ parts) =
    let item = trim_space part in
    let rest = trim_ips parts in if is_empty item then rest else item ∷ rest

unfoldable pub split_allowed_ips : Str → List Str
unfolding trim_ips
split_allowed_ips value = if is_empty (trim_space value) then [] else trim_ips (split b',' value)

unfoldable pub peer_less : WireGuardPeer → WireGuardPeer → Bool
peer_less a b = if eqb_ℤ a.sort b.sort then ltb_ℤ a.id b.id else ltb_ℤ a.sort b.sort

unfoldable pub endpoint_peer : WireGuardPeer → SingEndpointWireguardPeer
unfolding split_allowed_ips
endpoint_peer peer = record {
  address = peer.address;
  port = peer.port;
  public_key = peer.public_key;
  pre_shared_key = peer.pre_shared_key;
  allowed_ips = split_allowed_ips peer.allowed_ips;
  persistent_keepalive_interval = peer.persistent_keepalive_interval;
}

endpoint_peers : List WireGuardPeer → List SingEndpointWireguardPeer
endpoint_peers [] = []
endpoint_peers (peer ∷ peers) =
    let rest = endpoint_peers peers in if not peer.enabled then rest else endpoint_peer peer ∷ rest

-- `if cond { return nil }`
return_nil_if : {A : Type 0} → Bool → List A → List A
return_nil_if true rest = []
return_nil_if false rest = rest

module _ (sorting : Sorting WireGuardPeer) where
  unfoldable pub get_wire_guard_endpoints :
      Option WireGuard → List WireGuardPeer → Option Device → List SingEndpointWireguard
  unfolding return_nil_if endpoint_peers
  get_wire_guard_endpoints none peers device = []
  get_wire_guard_endpoints (some wg) peers none = []
  get_wire_guard_endpoints (some wg) peers (some device) =
      let client_addr = normalize_wire_guard_client_addr device.wire_guard_client_addr in
      return_nil_if
        (is_empty device.wire_guard_tag
          || not (equal wg.tag device.wire_guard_tag)
          || not wg.enabled)
        (return_nil_if (is_empty client_addr || is_empty (trim_space device.wire_guard_client_key))
          (record {
            type = codes "wireguard";
            tag = wg.endpoint_tag;
            mtu = wg.mtu;
            address = client_addr ∷ [];
            private_key = device.wire_guard_client_key;
            peers = endpoint_peers (sorting.sort_slice peer_less peers);
          }
            ∷ []))

  any-endpoint_peers :
      (p : SingEndpointWireguardPeer → Bool) (peers : List WireGuardPeer)
      → any p (endpoint_peers peers) ≡ any (λ peer. peer.enabled && p (endpoint_peer peer)) peers
  unfolding endpoint_peers any
  any-endpoint_peers p [] = refl
  any-endpoint_peers p (peer ∷ peers) = ground (arith, any-endpoint_peers p peers)

  -- The device may use the template: it is bound to it, and both are set up.
  abbrev pub is_bound : WireGuard → Device → Bool
  is_bound wg device =
      not (is_empty device.wire_guard_tag)
      && equal wg.tag device.wire_guard_tag
      && wg.enabled
      && not (is_empty (trim_space device.wire_guard_client_addr))
      && not (is_empty (trim_space device.wire_guard_client_key))

  -- The endpoint of the device, by the template and its peers.
  pub record IsEndpoint (wg : WireGuard) (peers : List WireGuardPeer) (device : Device)
      (e : SingEndpointWireguard) : Type 0 where
    pub type : e.type ≡ codes "wireguard"
    pub tag : e.tag ≡ wg.endpoint_tag
    pub mtu : e.mtu ≡ wg.mtu
    pub private_key : e.private_key ≡ device.wire_guard_client_key
    pub address :
        e.address
        ≡ (if contains (trim_space device.wire_guard_client_addr) (codes "/")
            then trim_space device.wire_guard_client_addr
            else trim_space device.wire_guard_client_addr ++ codes "/32")
          ∷ []
    pub enabled :
        (p : SingEndpointWireguardPeer → Bool)
        → any p e.peers ≡ any (λ peer. peer.enabled && p (endpoint_peer peer)) peers

  normalize_wire_guard_client_addr_lem :
      (addr : Str)
      → is_empty (trim_space addr) ≡ false
      → (normalize_wire_guard_client_addr addr ≡ (
          if contains (trim_space addr) (codes "/")
          then trim_space addr
          else trim_space addr ++ codes "/32"))
        × (is_empty (normalize_wire_guard_client_addr addr) ≡ false)
  unfolding normalize_wire_guard_client_addr
  normalize_wire_guard_client_addr_lem addr h = go (trim_space addr) h
    where
      go :
          (s : Str)
          → is_empty s ≡ false
          → ((if is_empty s then [] else if contains s (codes "/") then s else s ++ codes "/32")
              ≡ (if contains s (codes "/") then s else s ++ codes "/32"))
            × (is_empty (
                  if is_empty s then [] else if contains s (codes "/") then s else s ++ codes "/32")
                ≡ false)
      go [] h = absurd (cc)
      go (c ∷ s) h = (refl, ground arith)

  is_empty-normalized :
      (addr : Str)
      → is_empty (trim_space addr) ≡ true
      → is_empty (normalize_wire_guard_client_addr addr) ≡ true
  unfolding normalize_wire_guard_client_addr
  is_empty-normalized addr h = ground arith

  -- A device that is bound to the template, where it is enabled and the device has an address and
  -- a key, gets one endpoint: that of the template, with the key of the device, its address with
  -- a mask, and the enabled peers, whatever their order. Any other device gets none.
  pub get_wire_guard_endpoints_lem :
      (wg : WireGuard) (peers : List WireGuardPeer) (device : Device)
      → ((is_bound wg device ≡ true)
          × (e : SingEndpointWireguard) × (get_wire_guard_endpoints (some wg) peers (some device)
              ≡ e ∷ [])
          × IsEndpoint wg peers device e)
        ⊎ ((is_bound wg device ≡ false)
            × (get_wire_guard_endpoints (some wg) peers (some device) ≡ []))
  unfolding get_wire_guard_endpoints return_nil_if
  get_wire_guard_endpoints_lem wg peers device =
      go (is_empty device.wire_guard_tag) (equal wg.tag device.wire_guard_tag) wg.enabled
        (is_empty (trim_space device.wire_guard_client_addr))
        (is_empty (trim_space device.wire_guard_client_key)) refl
    where
      built : SingEndpointWireguard
      built = record {
        type = codes "wireguard";
        tag = wg.endpoint_tag;
        mtu = wg.mtu;
        address = normalize_wire_guard_client_addr device.wire_guard_client_addr ∷ [];
        private_key = device.wire_guard_client_key;
        peers = endpoint_peers (sorting.sort_slice peer_less peers);
      }

      go :
          (t q b a k : Bool)
          → is_empty (trim_space device.wire_guard_client_addr) ≡ a
          → ((not t && q && b && not a && not k ≡ true)
              × (e : SingEndpointWireguard) × (return_nil_if (t || not q || not b) (
                    return_nil_if
                      (is_empty (normalize_wire_guard_client_addr device.wire_guard_client_addr)
                        || k)
                      (built ∷ []))
                  ≡ e ∷ [])
              × IsEndpoint wg peers device e)
            ⊎ ((not t && q && b && not a && not k ≡ false)
                × (return_nil_if (t || not q || not b) (
                      return_nil_if
                        (is_empty (normalize_wire_guard_client_addr device.wire_guard_client_addr)
                          || k)
                        (built ∷ []))
                    ≡ []))
      go true q b a k h = inr (refl, refl)
      go false false b a k h = inr (refl, refl)
      go false true false a k h = inr (refl, refl)
      go false true true true k h = inr (
        refl,
        ap (λ z. return_nil_if (z || k) (built ∷ []))
            (is_empty-normalized device.wire_guard_client_addr h),
      )
      go false true true false true h = inr (
        refl,
        ap (λ z. return_nil_if (z || true) (built ∷ []))
            (normalize_wire_guard_client_addr_lem device.wire_guard_client_addr h).1,
      )
      go false true true false false h =
          let (address, full) =
            normalize_wire_guard_client_addr_lem device.wire_guard_client_addr h in
          inl (
            refl,
            built,
            ap (λ z. return_nil_if (z || false) (built ∷ [])) full,
            record {
              type = refl;
              tag = refl;
              mtu = refl;
              private_key = refl;
              address = ap (λ a. a ∷ []) address;
              enabled = λ p.
                  any-endpoint_peers p (sorting.sort_slice peer_less peers)
                  ∙ any-sort_slice sorting (λ peer. peer.enabled && p (endpoint_peer peer))
                      peer_less peers;
            },
          )
