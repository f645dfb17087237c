-- ===== src/Tests/Usb.antt =====
-- An interface that keeps the frames handed to lwIP, a set of TinyUSB's constants and macros, and inputs
-- for the theorems about the USB network and the descriptors.
use pico_deck_eddiscovery.Base.{
  ℕ, ◌/◌, ◌≤◌, ◌≡◌, ◌↔◌, refl, true, Option, none, some, List, [], ◌∷◌, ◌++◌, replicate, Bytes,
  codes,
}
use pico_deck_eddiscovery.Base.Bits.{u8}
use pico_deck_eddiscovery.NetUsb.{NetPlatform, Net, net_usb_prepare_identity}
use pico_deck_eddiscovery.NetUsb.Mailbox.{
  NetLaws, Event, arrives, runs, resets, after, seen, frames_in_order,
}
use pico_deck_eddiscovery.Usb.Tusb.{Tusb}
use pico_deck_eddiscovery.Usb.Descriptors.{strid_mac}
use pico_deck_eddiscovery.Usb.Strings.{display_strings, keyboard_strings, tud_descriptor_string_cb}
use pico_deck_eddiscovery.Usb.MsOs.{
  display_guid, ms_os_20_descriptor, display_control_xfer_cb, keyboard_control_xfer_cb,
}
use pico_deck_eddiscovery.Usb.Answers.{
  read_mac, text_of, host_reads_mac, string_cb_refuses, control_xfer_agrees,
}

-- The state of the services is the frames that lwIP has, oldest first.
abbrev net_platform : NetPlatform (List Bytes)
net_platform = record {
  tud_ready = λ w. true;
  tud_mounted = λ w. true;
  tud_network_can_xmit = λ n w. true;
  tud_network_xmit = λ f w. w;
  tud_network_recv_renew = λ w. w;
  unique_board_id = λ w. [];
  lwip_init = λ w. w;
  netif_add = λ ip mask gateway mac w. (true, w);
  netif_set_default_and_up = λ w. w;
  netif_is_up = λ w. true;
  netif_is_link_up = λ w. true;
  dhserv_init = λ ip lease domain w. (true, w);
  ethernet_input = λ f w. (true, w ++ f ∷ []);
  pbuf_free = λ f w. w;
  pbuf_alloc = λ n w. (true, w);
  pbuf_take = λ f w. (true, w);
  sys_check_timeouts = λ w. w;
}

abbrev frames_seen : List Bytes → List Bytes
frames_seen w = w

abbrev net_laws : NetLaws net_platform frames_seen
net_laws = record {
  handed_over = λ f w. refl;
  renewed = λ w. refl;
  freed = λ f w. refl;
  allocated = λ n w. refl;
  copied = λ f w. refl;
  timed = λ w. refl;
}

abbrev net : Net (List Bytes)
net = record {
  config = record { device_ip = []; host_ip = []; dhcp_domain = none; interface_name = [] };
  mac = [];
  hwaddr = [];
  received_frame = none;
  initialized = true;
  device_ip = [];
  host_ip = [];
  world = [];
}

-- The second frame comes too soon and is refused; the last is taken, and lost at the reset.
abbrev traffic : List Event
traffic = arrives (1 ∷ []) ∷ arrives (2 ∷ []) ∷ runs ∷ arrives (3 ∷ []) ∷ resets ∷ []

frames_in_order_example :
    seen net_platform frames_seen (after net_platform traffic [] net).1
    ≡ (after net_platform traffic [] net).0
frames_in_order_example = frames_in_order net_platform frames_seen net_laws traffic net

-- Macros that expand to zeros, where only their length matters.
abbrev tusb : Tusb
tusb = record {
  device_desc_len = 18;
  desc_device = 1;
  desc_string = 3;
  class_misc = 239;
  misc_subclass_common = 2;
  misc_protocol_iad = 1;
  att_remote_wakeup = 32;
  hid_itf_protocol_keyboard = 1;
  net_endpoint_size = 64;
  net_mtu = 1514;
  set_header_descriptor = 0;
  subset_header_configuration = 1;
  subset_header_function = 2;
  feature_compatible_id = 3;
  feature_reg_property = 4;
  config_desc_len = 9;
  hid_desc_len = 25;
  cdc_ncm_desc_len = 85;
  bos_desc_len = 5;
  bos_microsoft_os_desc_len = 28;
  config_descriptor = λ a b c d e f. replicate 9 0;
  hid_descriptor = λ a b c d e f g. replicate 25 0;
  hid_report_desc_keyboard = replicate 67 0;
  cdc_ncm_descriptor = λ a b c d e f g h i. replicate 85 0;
  bos_descriptor = λ a b. replicate 5 0;
  bos_ms_os_20_descriptor = λ a b. replicate 28 0;
  u16_to_u8s_le = λ n. u8 n ∷ u8 (n / 256) ∷ [];
  u32_to_u8s_le = λ n. u8 n ∷ u8 (n / 256) ∷ u8 (n / 65536) ∷ u8 (n / 16777216) ∷ [];
}

abbrev mac : Bytes
mac = 2 ∷ 2 ∷ 132 ∷ 106 ∷ 255 ∷ 0 ∷ []

-- A display whose board has the number E6 61 64 08 43 4A 2B 7F.
abbrev board : NetPlatform (List Bytes)
board = record net_platform {
  unique_board_id = λ w. 0xe6 ∷ 0x61 ∷ 0x64 ∷ 0x08 ∷ 0x43 ∷ 0x4a ∷ 0x2b ∷ 0x7f ∷ [];
}

abbrev told : Option Bytes
told = some (0x02 ∷ 0x08 ∷ 0x43 ∷ 0x4a ∷ 0x2b ∷ 0x7f ∷ [])

host_reads_mac_example :
    (read_mac (
        text_of (
          tud_descriptor_string_cb tusb display_strings
            (net_usb_prepare_identity board net).mac
            []
            strid_mac))
      ≡ told)
    × (read_mac (
          text_of (
            tud_descriptor_string_cb tusb keyboard_strings
              (net_usb_prepare_identity board net).mac
              []
              strid_mac))
        ≡ told)
host_reads_mac_example = host_reads_mac tusb board net [] refl refl

string_cb_refuses_example :
    ((tud_descriptor_string_cb tusb display_strings mac [] 238 ≡ none) ↔ (6 ≤ 238))
    × ((tud_descriptor_string_cb tusb keyboard_strings mac [] 238 ≡ none) ↔ (6 ≤ 238))
string_cb_refuses_example = string_cb_refuses tusb mac [] 238

abbrev product : List ℕ
product = 810 ∷ codes "PicoDeck ED Keyboard"

control_xfer_agrees_example :
    display_control_xfer_cb (ms_os_20_descriptor tusb 0 display_guid) true true 1 7
    ≡ keyboard_control_xfer_cb (ms_os_20_descriptor tusb 0 display_guid) true true 1 7
control_xfer_agrees_example =
    control_xfer_agrees tusb 0 display_guid true true 1 7 (λ n. refl, λ n. refl) refl
