-- ===== src/Lib.antt =====
-- A model of the Livox lidar driver of this repository, and what makes its parts correct.
--
-- The driver (src/livox_ros_driver2/src) takes packets from the Livox SDK and publishes them to
-- ROS 2. The point processing (PubHandler) turns packets into points and, by a timer, into frames.
-- The SDK's callbacks set the devices up (Callback) and hand frames of packets to the data
-- source (Lds), which finds the device of each packet by its address (CacheIndex), appends the
-- packet to the device's ring queue (Ldq) or IMU queue (ImuQueue) and raises a semaphore
-- (Semaphore). The distributor (Lddc) waits for that semaphore, empties the queues of the devices
-- that are sampled, builds one message for each packet and publishes it. The set-up (LdsLidar)
-- reads the configuration file (Config), gives each configured device an index, and starts the SDK
-- and the point processing. The node (Driver) sets all of this up, polls for points and for inertial
-- data in two threads, and joins them at its end. Apart from the driver, the angle filter (AngleFilter) passes on the
-- points of a scan outside two sectors and inside a range of elevations, the map node (Pcd2Pgm)
-- draws the accumulated cloud into an occupancy grid, and the waypoint manager of the mapping
-- (Waypoint) keeps named places relative to submaps.
--
-- Files, and the code that each is about (paths from the root of the repository):
--   Comm, Comm/Text     src/livox_ros_driver2/src/comm/comm.h, comm.cpp: shared structs; text
--   Ldq, Ldq/*          src/livox_ros_driver2/src/comm/ldq.h, ldq.cpp: one function for each there;
--                       Size: the power of two; Window, Refine: what a queue holds; Transfer: push
--                       and pop; Lifecycle: init, reset, release
--   ImuQueue            src/livox_ros_driver2/src/comm/lidar_imu_data_queue.cpp
--   Semaphore           src/livox_ros_driver2/src/comm/semaphore.h, semaphore.cpp
--   CacheIndex, */*     src/livox_ros_driver2/src/comm/cache_index.h, cache_index.cpp; Race: its two
--                       locked sections, entered by two threads
--   Lds, Lds/*          src/livox_ros_driver2/src/lds.h, lds.cpp; Ready: a device that takes packets;
--                       Deliveries, Frames: StoragePointData; Devices: resets and tests;
--                       Readings: StorageImuData
--   Lddc, Lddc/*        src/livox_ros_driver2/src/lddc.h, lddc.cpp as built for ROS 2; Messages,
--                       Contents: what a message holds; Publish: publishers; Drain, Polling: the
--                       loops; Log, Order, Imu: what they publish
--   Callback, */*       src/livox_ros_driver2/src/call_back/livox_lidar_callback.cpp,
--                       lidar_common_callback.cpp; Pending, Sampling, Answers: when a device is
--                       sampled
--   PubHandler, */*     src/livox_ros_driver2/src/comm/pub_handler.h, pub_handler.cpp: the points of
--                       one lidar; Reference, Rounds, Process: a packet's points; Timer, Points, Conservation: CheckTimer;
--                       Queue: the SDK's packets and RawDataProcess; Arrival: a packet's points
--   Config, Config/*    src/livox_ros_driver2/src/parse_cfg_file/parse_cfg_file.cpp,
--                       parse_livox_lidar_cfg.cpp; Entries: what the parser answers
--   LdsLidar, */*       src/livox_ros_driver2/src/lds_lidar.h, lds_lidar.cpp; Setup: the devices
--                       after the set-up, and its end
--   Driver, Driver/*    src/livox_ros_driver2/src/livox_ros_driver2.cpp, driver_node.h, driver_node.cpp:
--                       the constructor; Threads: the polling threads and the destructor; Exit: how
--                       they end
--   AngleFilter, */*    src/lidar_angle_filter/include/lidar_angle_filter/angle_filter.hpp,
--                       src/lidar_angle_filter/src/lidar_angle_filter_node.cpp; Cloud: scans and
--                       their coordinates; Node: filter_cloud; Bytes: byte orders; Spec, Scan: what
--                       is kept; Errors: bad scans
--   Pcd2Pgm, */*        src/pcd2pgm/src/pcd2pgm.cpp, src/pcd2pgm/include/pcd2pgm/pcd2pgm.hpp; Raster,
--                       Node: its functions; Cells, Extent, Bounds: what a map shows; Live: live clouds
--   Waypoint, */*       glim/glim_ext_addon/waypoint_manager/include/glim_ext/
--                       waypoint_manager_module.hpp; Names: what is tagged or pending; Lookup, Resolve:
--                       where; Geometry: what is used of Eigen;
--                       File, File/*: the saved document; Markers, Markers/*: the markers
--   Numerics            the floating-point operations, a parameter of what computes with them
--   Prelude, Prelude/*  shared names and lemmas on lists, bits, decimal text and integers
--   Examples, */*       concrete inputs
--
-- A C++ object is a record with its fields, and a function that changes it gives the new record.
-- `none` in a result type Option stands for undefined behaviour: an index out of bounds, a freed
-- block, a null pointer that is followed. Unsigned integers are natural numbers with their
-- remainder written out. A pointer of a queue to its block is null, live with its contents, or
-- freed (Ldq.Storage). A publisher is what it was created with, and publishing appends to a log.
-- Requests to the SDK are a log too.
--
-- Bounds: loops over a known count recurse on it, with the fixed bound 32 of the devices. The
-- replacement of periods recurses on the number of bytes and one, and never runs out. The loops of
-- Lddc recurse on fuel, with a result of its own for running out (Drain.Outcome); one more than the
-- entries of the queue is enough for a drain or an IMU queue, two more for polling.
--
-- The loops of the angle filter recurse on the rows and columns that are left, those of the map
-- node on the points.
--
-- Not modelled: the ROS 1 build, console output, memory that cannot be allocated, null arguments,
-- the order of memory accesses of threads other than in Race and Driver.Exit, the ROS 1 main of
-- livox_ros_driver2.cpp, the launch files, and the export of dumps. Parameters are the Livox SDK,
-- RapidJSON with the file system, PCL, Eigen, yaml-cpp's emitter, <cmath> and the representation of
-- floating-point numbers, each a record of what the code uses. The poses and stamps of the waypoint
-- manager are parameters, whose products may be rounded; how its callbacks are registered is left
-- out. The clouds of the map node have fewer than 2^31 points.
pub mod Prelude
pub mod Comm
pub mod Ldq
pub mod CacheIndex
pub mod Numerics
pub mod ImuQueue
pub mod Semaphore
pub mod Lds
pub mod Lddc
pub mod Callback
pub mod Waypoint
pub mod PubHandler
pub mod Examples
pub mod Pcd2Pgm
pub mod AngleFilter
pub mod Config
pub mod LdsLidar
pub mod Driver
