-- ===== src/Usb.antt =====
-- The usb_descriptors.c of PicoDeck-ED-Display/src and of PicoDeck-ED-Keyboard/src: what the two devices
-- tell the host of themselves.
pub mod Tusb
pub mod Descriptors
pub mod Strings
pub mod MsOs
pub mod Answers
