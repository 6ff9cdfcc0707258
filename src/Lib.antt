-- ===== src/Lib.antt =====
-- Verification of the MQTT code of the repository: the packet library paho/MQTTPacket/src, the client
-- paho/MQTTClient-C/src with its platform for FreeRTOS, both in C, and the client template
-- paho/MQTTClient/src/MQTTClient.h in C++; and of the control connection of the FTP client of
-- src/FTPClient.cpp.
--
-- The parts and their files
--   Common         Boolean tests, lists, options and integers over the native numbers.
--   Wire           paho/MQTTPacket/src/MQTTPacket.c: the pointers that packets are written and read
--                  through (Buffer, Reader), the callbacks that deliver bytes (Source), the remaining
--                  length (Length, and Field for what is proved of it), the strings (Strings, Text).
--   Packet         one module per packet: MsgType, Header and Frame (MQTTPacket.h and the shape that
--                  packets share), Ack and Publish (MQTTSerializePublish.c,
--                  MQTTDeserializePublish.c), Connect and Short (MQTTConnectClient.c), Connack
--                  (also MQTTConnectServer.c), Subscribe, Suback, Unsubscribe (the four files of
--                  those packets), Server (the server's side of the last two files), Read
--                  (MQTTPacket_read), Nonblocking (MQTTPacket_readnb), Connect/Read
--                  (MQTTDeserialize_connect). The child modules hold the proofs.
--   Client         paho/MQTTClient-C/src/MQTTClient.c: Platform (what the platform header has to
--                  define), State, Topics, Handlers, Send, Receive, Cycle, Calls, in the order in
--                  which they call each other; Ids, Sending, Receiving, Session and Table hold the
--                  proofs. Levels says what topic filters mean, on lists of levels; LevelSteps
--                  and Matching compare isTopicMatched with it.
--   FreeRtos       paho/MQTTClient-C/src/FreeRTOS/MQTTFreeRTOS.c: Os (the calls of FreeRTOS, lwIP and
--                  OpenSSL, which are parameters), Timer, Socket (the plain network), Ssl
--                  (esp_ssl_read and esp_ssl_write), SslConnect (NetworkConnectSSL). Arrivals,
--                  Departures and Writes hold the proofs about reading and writing, Ledger and
--                  Resources those about what is left open, SslPacket and SslSession those about the
--                  three reads of a packet.
--   Ftp            src/FTPClient.cpp: Net (what it inherits from TCPClient, a parameter), Lines (readLine
--                  and writeLine), Control (readResp, connectHost, login and the commands); Puts,
--                  Written, Cuts, Reading, Answers and Texts hold the proofs.
--   Cpp            paho/MQTTClient/src/MQTTClient.h: Platform (the template parameters Network and
--                  Timer), State, Inbox (the identifiers of incoming messages of quality of service
--                  2), Send, Receive, Handlers, Cycle, Calls, in the order in which they call each
--                  other; Ensures, Sound, Delivery, Keeps, Reach, Invariant, Publishing, Reachable and
--                  Outcomes hold the proofs about results, and Clock, Returns, Rounds, Dispatched,
--                  Yield, Waits, Opening and Returning those about termination; Missing is about
--                  packets that are cut off. It shares the
--                  packets, Run and the matching of topics with the C client.
--   Examples       runs, and the theorems at concrete inputs.
--
-- How the parts interact
--   Packet stands on Wire, and both clients on Packet. A client gets the network, the timers and the
--   application's callbacks as its Platform. FreeRtos models the functions that the C client's platform
--   header declares, on Os and OpenSsl; it and Ftp share Run, the results of calls, with the clients.
--
-- How the code is modelled
--   A buffer is the list of the bytes of its object. A serialiser takes the buffer and the length that
--   its caller states, and gives the return value and the buffer after it; `none` is an access outside
--   an object. The C functions have the same names in lower case: MQTTSerialize_publish is
--   serialize_publish, readMQTTLenString is read_mqtt_len_string, MQTTPacket_len is packet_len. A
--   deserialiser takes a record of what the caller's variables hold and gives the record after the
--   call. A pointer to the inside of a buffer is the list from there to the end of the object.
--   The client is a record with the fields of struct MQTTClient. The network, the timers and the
--   callbacks of the application are a parameter, Platform, over any state of the world, and each call
--   of them is made in the order of the code. A call of the client returns, faults (an access outside
--   an object) or is unfinished (its fuel runs out).
--   Where a result depends on whether calls of the platform failed, the theorems take a count of the
--   failures from the world (Log and Ledger in FreeRtos, Sender in Ftp), so that a failure is reported
--   where one happened and only there.
--
-- Bounds and fuel
--   char is unsigned and has 8 bits, int and size_t have 32. Lengths are natural numbers: the
--   arguments are not negative and their sums stay below 2 ^ 31. The encoder has five rounds, which is
--   enough for any nonnegative int (packet_encode-emit), and the decoder five, the last of which stops
--   at its test. The loops of the client run on fuel: `rounds` for sendPacket, `turns` for MQTTYield
--   and waitfor, since they end when a timer of the platform expires. On a platform whose
--   timers expire after a bounded number of tests (Cpp.Clock.Clock), as much fuel as that bound and
--   one more is enough for every call of the C++ client (Cpp.Returning). The C++ client has
--   MQTTCLIENT_QOS1 set, as by default; MQTTCLIENT_QOS2, the size of its buffers and the number of
--   its handlers are parameters (Config).
--
--   The loops of MQTTFreeRTOS.c and FTPClient.cpp run on `rounds` of the calls they make, and readResp
--   on `fuel` for lines. How many are enough is a condition of the theorems about them: more rounds
--   than tests before a time-out passes, than waits before the socket is ready, than characters and
--   lines in the answer. A millisecond count times 1000 does not wrap around.
--
-- Not modelled
--   The mutex and the task of MQTT_TASK, so every call is one step, and what MQTTFreeRTOS.c has for
--   them; callbacks that call the client back; the formatter MQTTFormat.c, which prints packets for
--   traces; of FTPClient.cpp the data connections, transfers and size, which scans numbers; the
--   other C++ files of src, which stand on classes and libraries that are not in the repository.
pub mod Common
pub mod Wire
pub mod Packet
pub mod Client
pub mod FreeRtos
pub mod Ftp
pub mod Cpp
pub mod Examples
