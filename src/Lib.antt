-- ===== src/Lib.antt =====
-- A model of the receiver library of piwxrx, the C code under JNI/: it takes samples of weather
-- radio audio from a child process, sends them on as RTP packets, and demodulates the FSK bursts
-- in them to bytes for the application.
--
-- How the parts work together. RunRTL starts a timer thread. Every 30 ms the thread reads samples at
-- 24 kHz from the child's pipe (ReadFromPipe), sends them as a packet if the stream is on
-- (SendUDPPacket, PCMEncode, the G.711 encoders), and puts the halves of the sums of their pairs, at
-- 12 kHz, in a ring (DSPDemod). The receiver's thread (dsp_threads_fn) takes them out one at a time:
-- an oscillator mixes them down to two channels, a low-pass filter runs on each, a discriminator
-- compares their phase with that of twelve samples before, and a slicer decides on a bit. Out of
-- sync, the bits go through a correlator that looks for the code AB AB; in sync, an edge detector
-- and a bit clock pick one bit in a bit time, and eight of these make a byte, from the first AB on.
-- The bytes go through a ring to the application, which waits for them (databuffer_get).
--
-- Which file models what, with the state first and then the operations:
--   G711         JNI/Common/g711.c: no state; search, linear2alaw, alaw2linear, linear2ulaw,
--                ulaw2linear, alaw2ulaw, ulaw2alaw. Tables holds the tables; Segments, Codes and
--                Accuracy have the lemmas on the segments; RoundTrip, Error and Transcode the results.
--   DataBuffer   JNI/Common/databuffer.c: Buffer is data_buffer, System adds the thread that is in
--                databuffer_get. put and the test in advance are the sections under the mutex,
--                take_byte comes after it, and run is any interleaving of these and of wake-ups
--                without a signal. Queue, Schedule.
--   Fir          JNI/Common/fir.c: FirData is FIR_DATA; fir_init, do_fir, run_fir. Ring and
--                Convolution compare the store with the history of the inputs.
--   Osc          JNI/Common/osc.c: init_osc, run_osc. Phase.
--   Demod        JNI/Common/demod.c: sync_correlator (Sync), phase_discrim (Delay).
--   Fsk          JNI/Common/FSKdsp.c: Edge is EdgeDetect, Clock is RunBitClock, Frame puts bits
--                together to bytes, Samples is DSPDemod and its ring, Receiver is dsp_threads_fn from
--                the bit on, Clear has DSPClearSync between its test of the sync flag and what the
--                branch does, Front is dsp_threads_fn up to the bit, with Slicer for sequences of
--                phases, Thread has its loop with DSPInit, DSPStop and SetDebugLevel, Drain and Start
--                run the loop. Signal is an ideal signal, the specification of what comes in: bits of
--                23 or 24 samples each, the long ones anywhere. Recovery has the clock on it, Text
--                the runs of equal bits in text, Acquire and Preamble the search for sync, Message a
--                burst from the idle signal on, Stale, Idle and Again what DSPClearSync leaves and
--                the next burst, Limit a run that is too long.
--   Codecs       JNI/Common/codecs.c: pcm_encode, pcm_decode, deemph, pipe_decimate. Encode,
--                RoundTrip, Deemph, State, Pipe, Prefix.
--   Udp          JNI/Common/udp.c and udpsocket.c: Udp has the globals; init_udp, open_socket,
--                send_udp_packet. Header, Stream and Session compare with the sequence of headers
--                that RTP asks for. close_udp is CloseUDP; send and send_result are Send.
--   Rtl          JNI/Source/rtl.c, and ReadFromPipe of JNI/Common/linux_spawn.c: Rtl is timer_threads
--                with the state of all parts below; init_rtl, run_rtl, timer_pass, stop_rtl,
--                clr_fsk_sync, start_udp, stop_udp; run is any sequence of them, and passes a
--                sequence of timer passes with what they send. Safety, Runs, Flow, Sending,
--                Broadcast, Heard, Misuse; Windows has the RunRTL of that system. Race has the test
--                for SendingUDP, the send and the two parts of StopUDP as steps of their own.
--                Shutdown has RunRTL from its wait on, timer_threads_fn, dsp_threads_fn and StopRTL
--                with DSPStop as the steps of four threads (Own), the ticks and the wake-ups (Outer),
--                and the interleavings of both (Reach). Returns, Leaving, Stuck.
--   Spawn        JNI/Common/linux_spawn.c: Child has pipes, stderr_capture, child_proc and the files
--                that the process has open; parse_command, start_child and child_side are
--                initChildProcess in the parent and in the child, close_child_process is
--                CloseChildProcess, capture_pass a pass of capture_fn. Command, Pipes, Redirect.
--   Errno        JNI/Common/errno.c: linux_errnos, geterrno. Range.
--   Usb          JNI/Source/usb.c: find_usb_device with get_usb_card_num, open_usb_device, read_usb.
--                Names, Search, Device.
--   FileReader   JNI/Source/filereader.c, the program that runs as the child: Args has the argument
--                loop of main on its variables (Config), Main the opening and the loop, and the
--                file itself the conversion. Options, Buffers, Convert, Stream.
--   Jni          JNI/Common/RTLjni.c: App is the state of all parts; init, run_rtl, stop_rtl,
--                clr_fsk_sync, get_rx_byte, start_udp, stop_udp, and byte_rx, the callback that joins
--                the receiver's thread to the byte ring; receive_step is a step of dsp_threads_fn, up to
--                its wait or from it on, without a second test of the ring; run is any sequence of the
--                calls, of these steps, of timer passes and of wake-ups without a signal. What
--                dsp_threads_fn does after its wait is one step there; Clear of Fsk divides it.
--                Bytes, Start, Stream, Step, Receive, Path, Received.
--   Prelude      integers, words, rings and tables for all of these.
--
-- Integers. int, long and int16_t are integers with the wrap-around of their width written out, also
-- where C leaves an overflow undefined; bytes, lengths and indices are natural numbers. Where fields
-- have no bit in common, | is written as +. A gain is a natural number; a shift by a gain of 32 or
-- more, which C leaves undefined, gives 0.
--
-- Bounds and fuel. drain runs the receiver's loop for a number of passes; more passes than samples
-- wait are enough, and a read of 720 samples leaves at most 360. split_loop cuts a command line with
-- one pass more than it has characters, since each pass but the last takes at least a space away.
-- file_loop reads a file with a pass for each sample and one more, since each pass but the last takes
-- at least one sample. read_usb runs over the results of the reads. The other loops are structural
-- recursions on the list or on the count that the C loop runs over.
--
-- What is a parameter: the cosine of the C library, the two products by a double in the slicer
-- (decay and gain), inet_pton, sscanf with %x and %d, the devices that libusb lists, the texts of the
-- files under /proc/asound, and what malloc, fopen, socket, bind, read, pipe, fork, dup2, the timer's
-- calls and the calls of ALSA return. A section under a mutex is one step. A null pointer, a freed
-- block or a place outside an array that is used gives no result.
--
-- What is not modelled: debug output and messages, the Windows branches but for RunRTL,
-- InitUSB, which only calls libusb, the older copy of usb.c under JNI/Include, and the headers of the Java kit.
pub mod Prelude
pub mod G711
pub mod DataBuffer
pub mod Fir
pub mod Osc
pub mod Demod
pub mod Fsk
pub mod Codecs
pub mod Udp
pub mod Errno
pub mod Spawn
pub mod Usb
pub mod Rtl
pub mod FileReader
pub mod Jni
