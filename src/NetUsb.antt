-- ===== src/NetUsb.antt =====
-- common/net_usb.c: the USB network interface between TinyUSB and lwIP.
pub mod Mailbox
pub mod Identity
use pico_deck_eddiscovery.Base.{
  ℕ, ◌+◌, ◌*◌, bit_xor, Bool, true, false, not, ◌&&◌, ◌||◌, Option, none, some, List, [], ◌∷◌, ◌++◌,
  ltb, ◌==◌, if◌then◌else◌, length, get_or, set, take, drop, Bytes, codes,
}
use pico_deck_eddiscovery.Base.Text.{decimal}

-- `net_usb_config_t`; a NULL domain is `none`.
pub record NetConfig : Type 0 where
  pub device_ip : Bytes
  pub host_ip : Bytes
  pub dhcp_domain : Option Bytes
  pub interface_name : Bytes

-- TinyUSB, lwIP and the DHCP server, over a state `W` of theirs. A Boolean result is `== ERR_OK`, not
-- NULL, or what the call returns.
pub record NetPlatform (W : Type 0) : Type 0 where
  pub tud_ready : W → Bool
  pub tud_mounted : W → Bool
  pub tud_network_can_xmit : ℕ → W → Bool
  pub tud_network_xmit : Bytes → W → W
  pub tud_network_recv_renew : W → W
  pub unique_board_id : W → Bytes
  pub lwip_init : W → W
  -- the device's address, the mask, the gateway and the hardware address
  pub netif_add : Bytes → Bytes → Bytes → Bytes → W → Bool × W
  pub netif_set_default_and_up : W → W
  pub netif_is_up : W → Bool
  pub netif_is_link_up : W → Bool
  -- the host's address, the lease in seconds and the domain
  pub dhserv_init : Bytes → ℕ → Bytes → W → Bool × W
  pub ethernet_input : Bytes → W → Bool × W
  pub pbuf_free : Bytes → W → W
  pub pbuf_alloc : ℕ → W → Bool × W
  pub pbuf_take : Bytes → W → Bool × W
  pub sys_check_timeouts : W → W

-- The static variables.
pub record Net (W : Type 0) : Type 0 where
  pub config : NetConfig
  pub mac : Bytes
  pub hwaddr : Bytes
  pub received_frame : Option Bytes
  pub initialized : Bool
  pub device_ip : Bytes
  pub host_ip : Bytes
  pub world : W

-- `"%u.%u.%u.%u"`
unfoldable pub ip_text : Bytes → Bytes
ip_text octets =
    decimal (get_or octets 0 0)
    ++ codes "."
    ++ decimal (get_or octets 1 0)
    ++ codes "."
    ++ decimal (get_or octets 2 0)
    ++ codes "."
    ++ decimal (get_or octets 3 0)

-- `s_netif.hwaddr[5] ^= 1`
unfoldable pub hardware_address : Bytes → Bytes
hardware_address mac = set mac 5 (bit_xor (get_or mac 5 0) 1)

abbrev pub lease_seconds : ℕ
lease_seconds = 86400

module _ {W : Type 0} (p : NetPlatform W) where
  open p use {
    tud_ready, tud_mounted, tud_network_can_xmit, tud_network_xmit, tud_network_recv_renew,
    unique_board_id, lwip_init, netif_add, netif_set_default_and_up, netif_is_up, netif_is_link_up,
    dhserv_init, ethernet_input, pbuf_free, pbuf_alloc, pbuf_take, sys_check_timeouts,
  }

  -- The prefix 02, and five bytes of the board's number.
  unfoldable pub net_usb_prepare_identity : Net W → Net W
  net_usb_prepare_identity n = record n { mac = 0x02 ∷ take 5 (drop 3 (unique_board_id n.world)) }

  -- `true` for ERR_OK.
  unfoldable pub linkoutput_cb : Bytes → Net W → Bool × Net W
  linkoutput_cb packet n =
      if not (tud_ready n.world)
      then (false, n)
      else if not (tud_network_can_xmit (length packet) n.world)
      then (false, n)
      else (true, record n { world = tud_network_xmit packet n.world })

  -- From the check of the configuration on.
  unfoldable pub start_network : NetConfig → Bytes → Net W → Bool × Net W
  start_network config domain n =
      let configured = record n {
        config = config;
        device_ip = ip_text config.device_ip;
        host_ip = ip_text config.host_ip;
        hwaddr = hardware_address n.mac;
      } in
      let added =
        netif_add config.device_ip (255 ∷ 255 ∷ 255 ∷ 0 ∷ []) (0 ∷ 0 ∷ 0 ∷ 0 ∷ [])
          (hardware_address n.mac) (lwip_init n.world) in
      let served =
        dhserv_init config.host_ip lease_seconds domain (netif_set_default_and_up added.1) in
      if added.0
      then (served.0, record configured { initialized = served.0; world = served.1 })
      else (false, record configured { world = added.1 })

  -- The NULL tests; a NULL configuration is `none`.
  unfoldable pub net_usb_init : Option NetConfig → Net W → Bool × Net W
  net_usb_init none n = (false, n)
  net_usb_init (some config) n = elim config.dhcp_domain [
    | none ↦ (false, n)
    | some domain ↦
        if get_or config.interface_name 0 0 == 0 || get_or config.interface_name 1 0 == 0
        then (false, n)
        else start_network config domain n
  ]

  unfoldable pub pass_on : Bytes → W → W
  pass_on packet w =
      let (ok, w') = ethernet_input packet w in
      tud_network_recv_renew (if ok then w' else pbuf_free packet w')

  unfoldable pub take_frame : Option Bytes → Net W → Net W
  take_frame none n = n
  take_frame (some packet) n = record n { received_frame = none; world = pass_on packet n.world }

  unfoldable pub net_usb_task : Net W → Net W
  net_usb_task n =
      let n' = take_frame n.received_frame n in record n' { world = sys_check_timeouts n'.world }

  unfoldable pub net_usb_ready : Net W → Bool
  net_usb_ready n =
      n.initialized && tud_mounted n.world && netif_is_up n.world && netif_is_link_up n.world

  -- `pbuf_alloc`, then `pbuf_take`; on failure what was allocated is freed.
  unfoldable pub store_frame : Bytes → Net W → Bool × Net W
  store_frame packet n =
      let (allocated, w) = pbuf_alloc (length packet) n.world in
      let (taken, w') = pbuf_take packet w in
      if not allocated
      then (false, record n { world = w })
      else if taken
      then (true, record n { received_frame = some packet; world = w' })
      else (false, record n { world = pbuf_free packet w' })

  unfoldable pub tud_network_recv_cb : Bytes → Net W → Bool × Net W
  tud_network_recv_cb packet n = elim n.received_frame [
    | some waiting ↦ (false, n)
    | none ↦ if length packet == 0 then (true, n) else store_frame packet n
  ]

  -- All of the frame is copied.
  unfoldable pub tud_network_xmit_cb : Bytes → Bytes × ℕ
  tud_network_xmit_cb packet = (packet, length packet)

  unfoldable pub tud_network_init_cb : Net W → Net W
  tud_network_init_cb n = elim n.received_frame [
    | none ↦ n
    | some packet ↦ record n { received_frame = none; world = pbuf_free packet n.world }
  ]
