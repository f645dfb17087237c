-- ===== src/Keyboard.antt =====
-- PicoDeck-ED-Keyboard/src: the touch keyboard.
pub mod Board
pub mod Buttons
pub mod EddButtons
pub mod Touch
pub mod Lcd
pub mod Ui
pub mod Press
pub mod Samples
pub mod Tiles
pub mod Lit
pub mod Scan
pub mod Indicator
pub mod Members
pub mod Keys
pub mod Hold
pub mod Redraw
pub mod Main
pub mod Device
pub mod Fresh
pub mod Pixels
pub mod Whole
pub mod Font
