-- ===== src/Lib.antt =====
-- A model of the ESP32 firmware of this repository, and what holds of it.
--
-- The program. A captive portal: components/spiffs_storage keeps files in flash;
-- components/rfid_manager keeps a database of access cards in two of them, behind a mutex;
-- components/app_local_server answers every DNS query with the address of the access point, serves
-- pages, a firmware update and requests on the cards, and has a monitor that a queue of messages
-- feeds; components/nvs_storage, components/app_wifi, components/app_time_sync and main start the rest.
--
-- How it is modelled. A C function is a function of the model with its name, less the component's
-- prefix (`rfid_manager_add_card` is `add_card` of Rfid/Manage). Functions that change files or take the
-- mutex are functions from the state (`World` of Esp) to a result and a state, composed in do blocks.
-- What FreeRTOS, the C library and the SPIFFS driver answer is an `Env`, a record of functions of the
-- number of calls made before; `Reliable` says that no call fails, each as its documentation has it.
-- `takes`, `gives`, `mallocs` and `frees` of `World` count the calls that a function must balance.
--
-- - Base, Bytes, Text, CString: Booleans, lists and numbers; fields of C structures in memory, C
--   strings; `snprintf` into a buffer and decimal numbers; `strncpy` and texts without a NUL.
-- - Esp: `esp_err_t`, `Env`, `World` and the monad.
-- - Storage, Storage/Mount: spiffs_storage.c. A file is its bytes. `stat` succeeds where the file is
--   there. Storage/Reliable, Usage and Mounted hold lemmas. Storage/Spec, Buffers, Kept: the calls
--   against a map from names to contents, where renaming never fails either. Storage/SelfTest:
--   spiffs_storage_test, and a file written, renamed and read back.
-- - Rfid/Card, Layout, Store, Opened: the structures `rfid_card_t` and `rfid_database_t`, their
--   bytes, and how the two files are read and written. Rfid/Manage, Query, Setup, Json: the
--   operations of rfid_manager.c. Rfid/Requests, Calls: calls one behind another.
-- - Rfid/Represents, Spec: the specification. Files represent a list of cards and a capacity when the
--   header counts the cards and the other file is exactly them. Rfid/Add, Remove, Defaults, Reset,
--   Refine, Entries, Listing, Boot: each operation against it. Rfid/Traces, Names, Invariants, Admin:
--   sequences of calls. Rfid/Closes, Balance, Sessions: the mutex and the heap. Rfid/ReadOnly: the
--   calls that only look. Rfid/Decoded, Valid: what files of whatever bytes hold, and what it means
--   to call them valid. Rfid/Faults (Check, Add, Left, Remove, Behind): what the operations leave
--   where calls fail but none is short (`Whole` of Esp). Rfid/Register (Order, Undo): the database as
--   a quotient that forgets order, time stamps and padding, and the check as a lookup in it.
-- - Dns: parse_dns_name, parse_dns_request and the body of the server's loop, of
--   components/app_local_server/dns_server.c. Dns/Name, Packet, Bounds, Answer: what holds of them.
--   Dns/Sockets: dns_server_task, whose sockets fail and receive as a list of rounds says; it ends
--   where the list does. Dns/Closed: how its sockets are opened and closed.
-- - Server/Monitor, Queue, Loop: the message queue and the monitor of app_local_server.c, the runs of
--   the tasks, and the rounds of the main loop. Server/Ota, BlankLine, Flash, Timeouts, Chunks: the
--   handler of firmware updates, where `httpd_req_recv` and the update library are a record of their
--   answers. Server/Http, Handlers: the handlers of requests on cards, where what the HTTP library
--   and cJSON find in a request are arguments. Server/Replies, Portal, Room: what holds of them.
--   Server/Sessions: requests as calls of the card database. Server/WifiConnect: the handler that
--   keeps Wi-Fi credentials. Server/Times: the texts of times, for times that are arguments.
--   Server/Pages, Pages/Texts: the handlers of pages, of the update's status and of the access
--   point's name. Server/GetData: get_data_handler, its `strtok` and its names; GetData/Tokens,
--   Texts, Values, Table, Answers: the names between the commas, and the text that is printed for
--   them. Server/Routes: http_server_configure and start_webserver, over the HTTP library as a record
--   `Httpd` of functions; `Documented` is what its documentation says. Server/Routes/Served: which
--   handlers it serves.
-- - Nvs/Api: the library for non-volatile storage, a record of functions over a state; its
--   `Dependable` assumes that no call fails and that texts of any length are kept, which its
--   documentation promises only within its limits and while there is space. Nvs/Credentials,
--   Nvs/Params: nvs_storage.c and custom_partition.c of components/nvs_storage. Nvs/SelfTests: the
--   tests that run on the device. Nvs/Keeps, Room, Handles: what holds of them.
-- - Wifi: the event handler of components/app_wifi/app_wifi.c. Wifi/Scan, Config: the scan and the
--   configuration of the station and the access point. Wifi/Configured: which credentials are used.
--   TimeSync: components/app_time_sync/app_time_sync.c.
-- - Main: app_main of main/main.c up to its loop, over the components (the loop is in
--   Server/Monitor); the libraries it is linked with are a record `Board`. Main/Boot, Cards, Started:
--   what a start leaves.
-- - Tests: a device on which nothing fails, runs, and the theorems at concrete inputs.
--
-- Bounds and fuel. `uint16_t` and `uint32_t` wrap around as written out (`% 2 ^ 16`, `% 2 ^ 32`);
-- `size_t` has 32 bits and `char` is unsigned, as on the ESP32. The loop of `parse_dns_name` runs on 129
-- rounds of fuel, since each makes the name longer and 128 is the limit; the loop of the firmware update
-- on two more than the body has bytes, since every round but the first and the last brings a byte; the
-- loop over the names of a request on one more than its text has bytes, since every name takes a byte.
-- The other loops are recursion on a list or a count.
--
-- Undefined behaviour. A handler that writes behind `urlBuffer` gives `none`, and a run of requests
-- ends there; the update's pointer outside the bytes read ends in `undefined`. `get_text` makes the list
-- of a buffer longer where the code writes behind it, and what this does to its neighbours is not
-- modelled; what is read back into such a list stands for the code only where there is room.
--
-- Assumptions and what is left out. The operations on cards run after the mutex was made. Log
-- output and what is only logged (the addresses that the DNS server and main print,
-- `wifi_event_handler`, the time behind the synchronisation), the bytes of the pages, and what a
-- failed `esp_ota_write` leaves in the partition are not modelled; the restart timer is counted
-- when it starts, and its callback, which restarts the chip, is not. What `strftime` prints is
-- written out; `localtime_r` and `gmtime_r` are arguments. Of the unit tests the short cases are
-- run, in Tests/Unit, and the others are not modelled. A read of memory that nobody wrote gives
-- bytes that `Env` chooses.
pub mod Base
pub mod Bytes
pub mod Text
pub mod CString
pub mod Esp
pub mod Storage
pub mod Rfid
pub mod Dns
pub mod Server
pub mod Nvs
pub mod Wifi
pub mod TimeSync
pub mod Main
pub mod Tests
