-- ===== src/Display.antt =====
-- PicoDeck-ED-Display/src: the telemetry display.
pub mod Edd
pub mod Input
pub mod Dashboard
pub mod Font
pub mod Lcd
pub mod Board
pub mod Canvas
pub mod Pages
pub mod Picture
pub mod Frame
pub mod Debounce
pub mod Scroll
pub mod Stripes
pub mod Redraw
pub mod Device
pub mod Whole
pub mod Window
pub mod Message
