-- ===== src/Lib.antt =====
-- The programs of vSIM, the subscriber module in a Keystone enclave, their peers, and what makes them
-- correct.
--
-- Two programs run in an enclave. vsim/fpga-provision sets up a channel to the provider; vsim/fpga-auth
-- answers authentication challenges of the mobile network. Both call the untrusted host through Keystone,
-- use the replacements for libc in include/hacks.h, and run on the memory functions of keytone-patch.
-- Outside of the enclaves, srsue/usim.cc writes a challenge into a shared memory and takes the answer
-- from there, the host of the authentication enclave carries both across, and provider/provider.cpp is
-- the server that the provisioning enclave talks to.
--
-- Files, and what they model:
--   CString, CString/*     keytone-patch/string.c: memcpy, memmove, memset, memcmp, strlen. Memory is a
--                          function from 64-bit addresses to bytes; pointers wrap; a word access that is
--                          not aligned is a fault (`none`).
--   Milenage, Milenage/*   vsim/fpga-auth/eapp/usim.c: liblte_security_milenage_f1 and _f2345 (f1, f2345),
--                          and in Milenage/Answer gen_auth_res_milenage. Milenage/Spec states 3GPP
--                          TS 35.206; a pointer argument is an `Option` array, `none` for NULL.
--   Decimal, Decimal/*     ltoa of vsim/fpga-auth/eapp/fpga-auth.c, repeated in fpga-provision.c.
--   Hex, Hex/*             print_hex of the two programs, and print_h of usim.c.
--   Runtime, Runtime/*     vsim/*/include/hacks.h: magic_random_init, syscall, gettimeofday (as
--                          timeval_of_cycles), getpid, sysconf.
--   Timing, Report         the measured delays of both programs, and the lines printed for them.
--   Enclave, Enclave/*     vsim/*/eapp/edge_wrapper.c: the calls of the host as events, newest first; the
--                          messages that the host delivers; malloc; the clock. A run gives a value, ends
--                          with EAPP_RETURN (`exit`), is undefined (`fault`), or waits for ever (`blocked`).
--   Auth, Auth/*           eapp_entry of vsim/fpga-auth/eapp/fpga-auth.c.
--   Channel, Channel/*     vsim/fpga-provision/eapp/channel.c over the record Sodium, whose laws
--                          (SodiumLaws) are the documented behaviour of libsodium.
--   Provision, Provision/* vsim/fpga-provision/eapp/fpga-provision.c: establish_secure_channel in its
--                          four parts (send_request, check_response, send_quote, await_ack), and
--                          eapp_entry (provision_entry).
--   Shared                 SharedData, the memory between srsUE and the host (host-fpga.cpp).
--   Usim, Usim/*           srsue/usim.cc: Text (str_to_hex, get_mnc_str, the log's texts), Init (init),
--                          Standard (gen_auth_res_milenage, gen_auth_res_xor, over Check), Vsim
--                          (gen_auth_res_milenage_vsim), Response (the two operations that answer a
--                          challenge, LTE and 5G). srsRAN's functions are the record SrsRan.
--   AuthHost, AuthHost/*   vsim/fpga-auth/host: send_challenge_to_vSIM by passes, send_challenge_response,
--                          and the wrappers of edge_wrapper.cpp. Service puts the host and the enclave
--                          together, EndToEnd srsUE too, and Protocol is a step relation of the events
--                          around the shared memory.
--   Provider, Provider/*   provider/provider.cpp: handleConnection in its four parts, with exceptions as
--                          values, and the conversions. Agreement puts the provider and the enclave
--                          together.
--   ProvisionHost/*        vsim/fpga-provision/host: send_buffer, send_ra_req, recv_buffer, wait_for_message,
--                          wait_for_resp, and the wrappers of edge_wrapper.cpp. The kernel and the heap are
--                          the record Machine; Forward gives the enclave's calls to the wrappers in order.
--   Base, Bits             the names that the modules share, arrays with bounds, integers over the native
--                          numbers, and the laws of the bit operations.
--   Tests and Toy modules  runs on concrete values, with a toy cipher and a toy libsodium.
--
-- Arrays are lists of bytes; reading or writing outside of one is a fault. The contents of an array
-- before it is written, of fresh memory included, are arguments. `long` is ℤ, and where it would overflow
-- the code's behaviour is undefined and the model faults; `unsigned long` wraps at 2 ^ 64.
--
-- Fuel: memcpy and memset have len + 1 rounds for each loop, of which each advances the pointer; ltoa has
-- 20 rounds, more than a 64-bit number has digits, and one round more than the length of the text for the
-- reversal. The theorems about them show that this is enough. strlen has no bound of its own, and its
-- theorem holds for every fuel above the length of the string. The host waits for ever if no challenge
-- comes; its loop is modelled up to any number of passes. srsUE polls six times at most.
-- The loop of send has one pass for each test of its condition; a pass sends a byte or more, except for
-- those that a signal interrupts, whose number the theorem takes as an argument.
--
-- Other processes: what they do to the shared memory is a function, applied before each load of
-- auth_response_ready in srsUE and before each pass of the host. The copies behind the last load are not
-- atomic: a second function gives the memory at the moment at which each copy reads each of its bytes.
--
-- Not modelled: AES (vsim/fpga-auth/eapp/aes.c is a copy of tiny-AES-c, the parameter Aes), libsodium,
-- attest_enclave, srsRAN and Keystone (parameters), the provider's accept loop, its console and
-- verifyPadding, exec and extract_value of usim.cc, which nothing calls, and the functions of hacks.h that
-- only end the program.
pub mod Base
pub mod Bits
pub mod CString
pub mod Milenage
pub mod Decimal
pub mod Runtime
pub mod Timing
pub mod Enclave
pub mod Report
pub mod Auth
pub mod Channel
pub mod Provision
pub mod Hex
pub mod Shared
pub mod Usim
pub mod AuthHost
pub mod Provider
pub mod ProvisionHost
