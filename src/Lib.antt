-- ===== src/Lib.antt =====
-- A model of infinity_station, the on-board program that inspects the overhead line and the
-- pantograph of a train, with theorems on its parts that compute.
--
-- The program is a set of modules in one process. Devices (cameras, lidars, tag readers)
-- deliver data, services turn them into alarms and module statuses, and the service of the
-- vehicle bus puts these into a frame that is sent at every heartbeat.
--
-- Modelled here:
-- - Mvb/Fcs: `fcstab` and `calcFCS32` of
--   src/modules/mvb_service/mvbprocessmsg/ningbo8/MVBNBDataGenerator.{h,cpp}.
-- - Mvb/Frame: `setBitSetValue` and `setValue` of the same file, on the list of the bytes of a
--   frame.
-- - Mvb/Ningbo: the class MVBNBDataGenerator: the record NbGenerator is its state, Alarms and
--   Faults hold the setters, Header the fields of the frame, Session the calls in any order.
-- - Mvb/Generator: the abstract class MVBDataGenerator as a record of operations, with the one
--   of the Ningbo 8 line.
-- - Mvb/Pms: MVBPmsDataGenerator.{h,cpp}: the tables of setters, the counters of modules and of
--   heartbeats.
-- - Mvb/Modbus and Mvb/Hangde: the checksum and the class of
--   src/modules/mvb_service/mvbprocessmsg/hangde/MVBHDDataGenerator.{h,cpp}.
-- - Mvb/Parse: ningbo8/MVBNBParseMsg.cpp and hangde/MVBHDParseMsg.cpp beside it.
-- - Mvb/ByteArray: src/kits/thrid_devices/duagon/mvb_tools/ByteArrayTools.h.
-- - Rfid: src/kits/thrid_devices/rfid_recv_kits/RfidVFR61M/RfidVFR61M.cpp, the frames of the
--   tag reader and the table of tags.
-- - Kits/ObjectPool: src/kits/common/object_pool/ObjectPool.h: Memory is the pool with the
--   memory of its nodes, Move one access of shared memory by one thread, System and Reach any
--   number of threads in any order. Chain and Invariant hold the linked nodes, Owners the place
--   of each object.
-- - Kits/Timers: src/kits/common/thread_pool/ConcurrentPool.h: Pool is the state, Calls the
--   public calls and the steps of the timer thread in one sequence.
-- - Kits/Counters: src/kits/thrid_devices/connectivity_kits/7404net: the counters in a reply of
--   the relay board and the pulses that `calcSpeedData` adds up.
-- - Kits/SaveVideo: src/kits/common/save_video_by_ffmpeg/SaveVideoCache.cpp: CameraMove and
--   RecorderMove are the accesses of shared memory by the camera thread and the recording
--   thread, Window the frames of a file, Bounds the size of the cache and two races.
-- - Sql: src/kits/common/database/SqlTypes.h, SqlSelect.h, SqlUpdate.h and SqlInsert.h: the
--   text of the statements with the values bound to them. Placeholders reads a statement as the
--   data base's library documents it, Bound and Columns compare what is bound with what was
--   asked; Sql/Offline is src/modules/radar_offline/OfflineSqlOp.cpp.
-- - Task: src/modules/task_service/PreviousTaskCtrl.{h,cpp}: TaskCtrl is its state,
--   `createTask` and what it calls, with `recvMBLKData` of TaskService.cpp; Session puts
--   requests in sequence. Task/Config is the loading of its tables with
--   src/kits/common/read_csv/ReadCSVFile.cpp, Task/Lines `convertLinedata` of TaskService.cpp.
-- - Location: src/modules/location_service/locationlib/RoughPositionBase.cpp, TriggerSaveDB.cpp
--   and PositionDataBase.cpp: Poles is the choice of the pole for a position, Batches the rows
--   that wait for the data base, Spacing the rounds of `run` of LocationService.cpp. Lengths
--   are natural numbers of millimetres in place of doubles.
-- - Radar/Overrun: src/modules/radar_online/RadarOverrun.cpp: Scan finds the regions of a
--   frame, Frame is `isOverrun` on a store of the objects behind the shared pointers, Table the
--   indices of the regions in an unordered map whose order is a parameter. The number that
--   `returnIndex` reads through a reference to an erased entry is the parameter `erased_key`.
--   Single follows one region, Leak what two regions in a frame do to the indices.
-- - Base holds lists, options, Boolean tests and digits; Witnesses holds a concrete input for
--   each theorem.
--
-- An exception of the C++ library is `none`. A call that holds the object's mutex is one step.
-- Bytes are natural numbers below 256, and a machine word is its bit pattern, cut with `% 2 ^
-- w` where the source converts. Loops are structural recursion on the number of rounds, but for
-- the one of the Modbus checksum: its counter is one byte, so it has a fuel of 257 rounds,
-- which is enough for every length below 256; for the others the loop never ends. Threads are
-- interleaved at their accesses of shared memory in Kits, where memory is sequentially
-- consistent. Files, sockets, the data base, the user interface and the libraries of vendors
-- are not modelled.
pub mod Base
pub mod Kits
pub mod Sql
pub mod Location
pub mod Mvb
pub mod Radar
pub mod Rfid
pub mod Task
pub mod Witnesses
