-- ===== src/Tests.antt =====
-- Inputs on which the theorems apply, one module for each part of the program.
mod WebSocket
mod Display
mod Document
mod Keyboard
mod Usb
mod Drawing
mod Whole
