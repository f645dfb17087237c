-- ===== src/Lib.antt =====
-- PicoDeck-EDDiscovery: two devices on a Raspberry Pi Pico, a display and a keyboard for Elite
-- Dangerous, which talk to EDDiscovery over USB.
--
-- The parts and how they interact. Each device is a USB network card (common/net_usb.c): TinyUSB hands a
-- received frame to a slot, the main loop passes it on to lwIP. Over it a WebSocket client
-- (common/websocket_client.c) keeps one connection, and common/eddjson_client.c sends EDDiscovery's
-- requests through it. Each text message goes to the device's handler. On the display it is
-- edd_state_handle_json (PicoDeck-ED-Display/src/edd_state.c), whose state the dashboard
-- (PicoDeck-ED-Display/src/dashboard.c) draws stripe by stripe through the panel's driver (lcd.c); a
-- debounced button (main.c) turns the pages. On the keyboard it is edd_buttons_handle_json
-- (PicoDeck-ED-Keyboard/src/edd_buttons.c), which says which buttons are lit; the touch panel (touch.c)
-- gives points, ui.c the button at a point, and the main loop (main.c) turns touches into key reports.
--
-- Where each part is modelled:
--   Base: helpers. Base/Bits: machine words; Base/Text: C's string functions; Base/Int: `int`.
--   WebSocket/Types, Send, Frame, Receive, Client: common/websocket_client.c, one function for each of
--     the file's, over `Platform`, which stands for lwIP, the clock and the random source. s_rx up to
--     s_rx_length is the field rx, s_pcb != NULL is connected, the callbacks are `Callbacks`.
--     What is proved of them is in RoundTrip, Wire, Segments, Stream, Fragments, Fits, Validity, Reach,
--     Retry, ServerText, Arrival.
--   WebSocket/Application: what the client leaves of the application's state.
--   EddjsonClient: common/eddjson_client.c, with EddjsonClient/Reach and Application.
--   NetUsb: common/net_usb.c over `NetPlatform` (TinyUSB, lwIP, the DHCP server), with NetUsb/Mailbox
--     for the slot and NetUsb/Identity for the addresses.
--   Display/Edd: edd_state.c. Tokens has the walk over jsmn's tokens, Route, Journal and Messages the
--     handlers; Bounds, Rows, Handled, Counters, RouteTime and Fuel are about them. The
--     tokenizer, jsmn, is a parameter. Tree and Document give what a message means where jsmn's tokens
--     are those of a tree, as it documents; Walk, Found, Reads, Branches, RowsTree and Refines compare
--     the walk over the tokens with it. Stops reads a route's text as a list of names.
--   Display/Input and Debounce: the button; Display/Dashboard, Stripes, Redraw and Scroll: dashboard.c;
--     Display/Board: board.h; Display/Canvas and Pages: its drawing, as the calls of rect in order; Picture
--     and Frame: what these calls leave on the panel. Display/Lcd and Window: lcd.c; Display/Font:
--     font5x7.c. Display/Device and Whole: main.c, the parts of the display together; Message: the way of
--     a message through them.
--   Keyboard/Buttons, EddButtons, Lit: buttons.c and edd_buttons.c; Scan, Indicator and Members: its search
--     over the text of a message, against the message's members. Keyboard/Touch, Samples: touch.c.
--     Keyboard/Ui, Tiles: ui.c. Below Ui, Tile, Screen and Startup are its drawing, as calls of set_pixel
--     and setup_pixel in order; Cells, Ink, Shapes, Picture, Shows, Begun and Coverage: what it leaves
--     on the panel. Base/Pixels and Plots: the buffers of both. Keyboard/Press, Keys, Hold, Main, Redraw: main.c;
--     Device, Fresh, Pixels and Whole: its rounds with the panel. Keyboard/Font:
--     font5x7.c. Keyboard/Lcd: lcd.c.
--   Usb: the usb_descriptors.c of both devices, over `Tusb`, the constants and macros of TinyUSB: Descriptors,
--     Strings and MsOs, with Answers about them.
--   Tests: inputs on which the theorems apply.
--
-- Conventions. Numbers are natural numbers with their wrap-around written out; a C string is the list of
-- its bytes without the NUL; a pointer that may be NULL and an index that may be -1 is an Option. A
-- function that changes static variables takes the record of them and returns it. The clock does not
-- move within one function call.
--
-- Bounds and fuel. The capacity of the receive buffer and the size of a chunk are parameters of
-- `Platform`. The loop over received frames runs on one turn more than there are bytes, the loop over
-- journal rows on one more than there are tokens; what they would give where the fuel runs out is an
-- argument, and frames_fuel and journal_rows_fuel show that it does not run out. A chunk loop runs on the
-- payload's length. The start-up screen of the keyboard is
-- drawn in 27 rounds of its loop; ui_render_startup_shows holds for the 28 that it may take.
--
-- Drawing. A rectangle or a pixel that is drawn is an element of a list, so a picture is a list and its
-- meaning is the color that the last element over a pixel gives it. What a call of lcd_blit_rgb565_be
-- shows on the panel is a function from column and row to a color.
--
-- Not modelled: the pictures of PicoDeck-ED-Keyboard/assets/icons.c, which are generated data and a
-- parameter of the drawing; the configuration of lwIP and TinyUSB; the set-up of pins, clocks and
-- TinyUSB in the two main() functions. jsmn, lwIP, TinyUSB and the SDK are parameters.
pub mod Base
pub mod WebSocket
pub mod Usb
pub mod EddjsonClient
pub mod NetUsb
pub mod Display
pub mod Keyboard
pub mod Tests
