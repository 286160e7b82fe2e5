-- ===== src/Lib.antt =====
-- Device software of a fleet of field sensors: drivers for a sensor and a radio, and clients of the
-- cloud services that the sensors report to and that update their firmware.
--
-- The parts, with the files that model them:
--
-- - Base and the modules below it: bytes, texts as `snprintf` cuts them, decimal and hexadecimal
--   digits, masks, error codes, and the lemmas that the parts share.
-- - Mcp3221, Mcp3221/Zephyr, Mcp3221/Idf: the two drivers of the 12-bit ADC MCP3221,
--   zephyr-mcp3221-poc/module/drivers/sensor/mcp3221/mcp3221.c (`mcp3221_sample_fetch`,
--   `mcp3221_channel_get`, `mcp3221_init`) and
--   esp-idf-mcp3221-poc/components/mcp3221/mcp3221.c (`mcp3221_init`, `mcp3221_read_raw`,
--   `mcp3221_read_voltage_mv`, `mcp3221_deinit`). Integers are natural numbers, with the
--   reduction modulo 2 ^ 32 of `uint32_t` written out. Mcp3221/Zephyr/App and Mcp3221/Idf/App are the
--   applications that try them, zephyr-mcp3221-poc/app/src/main.c and
--   esp-idf-mcp3221-poc/main/app_main.c, one turn for each answer of the bus.
-- - Rn2483, Rn2483/Command: the driver of the LoRa module,
--   zephyr-rn2483-poc/module/drivers/lora/rn2483/rn2483.c. The UART is a list of polls, each with
--   the time that passed and the byte that it found, if any, so that the module may send anything
--   at any time. A run of the driver is a function from the device to the device and a result; where
--   the list of polls ends before the driver returns, it gives `none`, and Rn2483/Timeout is
--   about the polls that it takes.
--   Rn2483/App is the application that tries it, zephyr-rn2483-poc/app/src/main.c, for so many turns of
--   its loop.
-- - Nvs: the helpers `load_nvs_str`, `save_nvs_str` and `erase_nvs_key` over an interface of the NVS
--   library, a record of its operations and of what its documentation promises. Opening, writing and
--   erasing may fail; the clients ignore a failing erasure. Nvs/Memory is a
--   store in memory that fills it.
-- - Json: the interface of cJSON, as far as the clients use it. Json/Memory fills it.
-- - Azure: the client of Azure IoT Hub, esp-idf-azure-dps/main/app_main.c. `Hub` is the state: the
--   file's static variables, the flash, and what the client did to the world (messages published,
--   topics subscribed to, OTA task created, image made bootable, restart). Azure/UrlEncode and
--   Azure/SasToken are `url_encode` and `build_sas_token`; Azure/DirectMethod, Azure/Twin and
--   Azure/Events are the handlers of incoming messages; Azure/Ota and Azure/Boot are the firmware
--   update and the reconciliation after a boot; Azure/Telemetry is the loop of the telemetry task,
--   one round at a time.
-- - Azure/Dps is the registration with the Device Provisioning Service (`dps_mqtt_event_handler`,
--   `run_dps_registration`), its loop a function of the events that come in each round, and
--   Azure/Connect is `init_effective_symmetric_key` and `connect_to_hub`.
-- - EspIdf: what the starts (`app_main`) of the two ESP-IDF clients have in common. Azure/Start and
--   ThingsBoard/Start are the starts: what the flash holds decides whether the device is registered or
--   provisioned first.
-- - ZephyrNet: the Wi-Fi request and the semaphore of the network start of
--   zephyr-thingsboard/src/main.c, whose `main` is ThingsBoardZephyr/Boot. The LwM2M client makes the
--   same request.
-- - Lwm2m: the firmware update object of the LwM2M client, lwm2m/src/firmware_update.c, whose
--   callbacks the engine calls in any order (Lwm2m/Calls). Lwm2m/Client is the client itself,
--   lwm2m/src/lwm2m-client.c: its callbacks, and its `main` with the wait for the network;
--   `lwm2m_setup` is the value that it returns. What `flash_img_buffered_write`
--   writes of its buffer before it is flushed is an input.
-- - ThingsBoard: the client of ThingsBoard, esp-idf-thingsboard/main/app_main.c. `Client` is the
--   state, as `Hub` is for Azure, with the partition that the update writes and the SHA-256 context.
--   ThingsBoard/Firmware is the update in chunks (`start_fw_update`, `handle_fw_chunk_data`,
--   `finish_fw_update`), ThingsBoard/Attributes, ThingsBoard/Rpc and ThingsBoard/Events are the
--   handlers of incoming messages, ThingsBoard/Provisioning is `run_provisioning`, whose loop is a
--   function of the events that come in each wait, and ThingsBoard/Boot is what happens at a boot.
--   ThingsBoard/Firmware/Machine is the update as an abstract machine of three states, and
--   ThingsBoard/Events/Refinement relates the client to it.
-- - ThingsBoardZephyr: the client for Zephyr, zephyr-thingsboard/src/thingsboard_mqtt.c. Its `Client`
--   is the file's static variables with what the client did; the payload buffer is modelled with what
--   `mqtt_read_publish_payload` leaves in it, which need not be the whole payload. Payloads are taken to hold no NUL.
--   ThingsBoardZephyr.antt has `client_configure`, `json_extract_string` and `handle_rpc_request`,
--   ThingsBoardZephyr/Provisioning has `provisioning_evt_handler` and `run_provisioning`, and
--   ThingsBoardZephyr/Main has `main_evt_handler`, `publish_telemetry` and `thingsboard_run`. A turn of
--   one of the two loops is what the socket, the event callback and the clock give in it.
--
-- How they interact: each client handles MQTT events and reads and writes its NVS keys. The update
-- that `trigger_ota` starts is an OTA task; its outcome is found by `reconcile_pending_ota` at the
-- next boot, which leaves a mark in NVS that `trigger_ota` reads again.
--
-- No fuel is used: every loop is structural over its input, or over the list of what the environment
-- answers.
--
-- Not modelled: logging and delays (but for the clock of the LoRa driver's reads), TLS
-- set-up, the parts that are copies of samples or of drivers of the Zephyr, ESP-IDF and Mongoose
-- projects, and the shell and Python scripts. mbedTLS, cJSON, NVS, the HTTP client, the OTA library
-- and MQTT are interfaces.
pub mod Base
pub mod Mcp3221
pub mod Rn2483
pub mod Nvs
pub mod Json
pub mod Lwm2m
pub mod Mqtt
pub mod EspIdf
pub mod ZephyrNet
pub mod ThingsBoard
pub mod ThingsBoardZephyr
pub mod Azure
